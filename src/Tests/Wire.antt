-- ===== src/Tests/Wire.antt =====
-- A concrete text format for configurations that meets `IsCodecs`: numbers, and lists after their
-- lengths.
use lantun.Cli.Config.{ClientTunnelEntry, HostTunnelEntry, LanTunConfig}
use lantun.Protocol.{udp, tcp, TunnelProtocol}
use lantun.Base.{
  zero, err, refl, suc, true, Outcome, [], false, length, none, ok, ◌∷◌, Bool, List, Option, Text,
  some, ℕ, ◌≡◌,
}
use lantun.Addr.{v6, v4, SocketAddr}

-- A value written before the rest of a text, and read off a text.
abbrev Put : Type 0 → Type 0
Put A = A → Text → Text

abbrev Get : Type 0 → Type 0
Get A = Text → Option (A × Text)

-- What was written is read, and leaves the rest.
abbrev Reads : {A : Type 0} → Put A → Get A → Type 0
Reads {A} put get = (a : A) (rest : Text) → get (put a rest) ≡ some (a, rest)

abbrev next : {A B : Type 0} → (A → Get B) → Option (A × Text) → Option (B × Text)
next more none = none
next more (some (a, s)) = more a s

abbrev put_nat : Put ℕ
put_nat n rest = n ∷ rest

abbrev get_nat : Get ℕ
get_nat [] = none
get_nat (n ∷ rest) = some (n, rest)

module _ {A : Type 0} (put : Put A) (get : Get A) where
  put_all : Put (List A)
  put_all [] rest = rest
  put_all (a ∷ xs) rest = put a (put_all xs rest)

  get_all : ℕ → Get (List A)
  get_all zero s = some ([], s)
  get_all (suc n) s = next (λ a. λ t. next (λ xs. λ u. some (a ∷ xs, u)) (get_all n t)) (get s)

  abbrev put_list : Put (List A)
  put_list xs rest = length xs ∷ put_all xs rest

  abbrev get_list : Get (List A)
  get_list [] = none
  get_list (n ∷ s) = get_all n s

  put_all-Reads :
      Reads put get
      → (xs : List A) (rest : Text) → get_all (length xs) (put_all xs rest) ≡ some (xs, rest)
  unfolding put_all get_all
  put_all-Reads reads [] rest = refl
  put_all-Reads reads (a ∷ xs) rest =
      rw (reads a (put_all xs rest), put_all-Reads reads xs rest) refl

abbrev put_text : Put Text
put_text = put_list put_nat get_nat

abbrev get_text : Get Text
get_text = get_list put_nat get_nat

put_text-Reads : (s rest : Text) → get_text (put_text s rest) ≡ some (s, rest)
put_text-Reads s rest = put_all-Reads put_nat get_nat (λ n r. refl) s rest

abbrev put_addr : Put SocketAddr
put_addr (v4 ip port) rest = 0 ∷ ip ∷ port ∷ rest
put_addr (v6 ip port flowinfo scope_id) rest = 1 ∷ ip ∷ port ∷ flowinfo ∷ scope_id ∷ rest

abbrev get_addr : Get SocketAddr
get_addr (zero ∷ ip ∷ port ∷ s) = some (v4 ip port, s)
get_addr (suc _ ∷ ip ∷ port ∷ flowinfo ∷ scope_id ∷ s) = some (v6 ip port flowinfo scope_id, s)
get_addr _ = none

put_addr-Reads : (a : SocketAddr) (rest : Text) → get_addr (put_addr a rest) ≡ some (a, rest)
put_addr-Reads (v4 ip port) rest = refl
put_addr-Reads (v6 ip port flowinfo scope_id) rest = refl

abbrev put_protocol : Put TunnelProtocol
put_protocol tcp rest = 0 ∷ rest
put_protocol udp rest = 1 ∷ rest

abbrev get_protocol : Get TunnelProtocol
get_protocol [] = none
get_protocol (zero ∷ s) = some (tcp, s)
get_protocol (suc _ ∷ s) = some (udp, s)

put_protocol-Reads :
    (p : TunnelProtocol) (rest : Text) → get_protocol (put_protocol p rest) ≡ some (p, rest)
put_protocol-Reads tcp rest = refl
put_protocol-Reads udp rest = refl

abbrev put_bool : Put Bool
put_bool false rest = 0 ∷ rest
put_bool true rest = 1 ∷ rest

abbrev get_bool : Get Bool
get_bool [] = none
get_bool (zero ∷ s) = some (false, s)
get_bool (suc _ ∷ s) = some (true, s)

put_bool-Reads : (b : Bool) (rest : Text) → get_bool (put_bool b rest) ≡ some (b, rest)
put_bool-Reads false rest = refl
put_bool-Reads true rest = refl

-- A format: how a value is written and read.
record Format (A : Type 0) : Type 0 where
  put : Put A
  get : Get A
  reads : Reads put get

abbrev texts : Format Text
texts = record { put = put_text; get = get_text; reads = put_text-Reads }

abbrev addrs : Format SocketAddr
addrs = record { put = put_addr; get = get_addr; reads = put_addr-Reads }

abbrev protocols : Format TunnelProtocol
protocols = record { put = put_protocol; get = get_protocol; reads = put_protocol-Reads }

abbrev bools : Format Bool
bools = record { put = put_bool; get = get_bool; reads = put_bool-Reads }

abbrev lists : {A : Type 0} → Format A → Format (List A)
lists f = record {
  put = put_list f.put f.get;
  get = get_list f.put f.get;
  reads = λ xs rest. put_all-Reads f.put f.get f.reads xs rest;
}

module _ {A B : Type 0} (f : Format A) (g : Format B) where
  abbrev put_pair : Put (A × B)
  put_pair (a, b) rest = f.put a (g.put b rest)

  abbrev get_pair : Get (A × B)
  get_pair s = next (λ a. λ t. next (λ b. λ u. some ((a, b), u)) (g.get t)) (f.get s)

  put_pair-Reads : Reads put_pair get_pair
  put_pair-Reads (a, b) rest = rw (f.reads a (g.put b rest), g.reads b rest) refl

  abbrev pairs : Format (A × B)
  pairs = record { put = put_pair; get = get_pair; reads = put_pair-Reads }

abbrev Fields : Type 0
Fields = Text × (SocketAddr × (TunnelProtocol × (Text × (Text × Bool))))

abbrev fields : Format Fields
fields = pairs texts (pairs addrs (pairs protocols (pairs texts (pairs texts bools))))

abbrev host_fields : HostTunnelEntry → Fields
host_fields t = (t.name, (t.local, (t.protocol, (t.private_secret, (t.public_secret, t.enabled)))))

abbrev host_of : Fields → HostTunnelEntry
host_of (n, (a, (p, (k, (s, e))))) = record {
  name = n;
  local = a;
  protocol = p;
  private_secret = k;
  public_secret = s;
  enabled = e;
}

abbrev client_fields : ClientTunnelEntry → Fields
client_fields t = (t.name, (t.local, (t.protocol, (t.secret, ([], t.enabled)))))

abbrev client_of : Fields → ClientTunnelEntry
client_of (n, (a, (p, (k, (s, e))))) = record {
  name = n;
  local = a;
  protocol = p;
  secret = k;
  enabled = e;
}

module _ {A B : Type 0} (f : Format A) (to : B → A) (from : A → B)
    (back : (b : B) → from (to b) ≡ b) where
  abbrev through : Format B
  through = record {
    put = λ b rest. f.put (to b) rest;
    get = λ s. next (λ a. λ t. some (from a, t)) (f.get s);
    reads = λ b rest. rw (f.reads (to b) rest, back b) refl;
  }

abbrev config_format : Format LanTunConfig
config_format =
    through
      (pairs (lists (through fields host_fields host_of (λ t. refl)))
        (lists (through fields client_fields client_of (λ t. refl))))
      (λ c. (c.host_tunnels, c.client_tunnels))
      (λ (hs, cs). record { host_tunnels = hs; client_tunnels = cs }) (λ c. refl)

pub encoded : LanTunConfig → Text
encoded c = config_format.put c []

abbrev result : Option (LanTunConfig × Text) → Outcome Text LanTunConfig
result none = err []
result (some (c, _)) = ok c

pub decoded : Text → Outcome Text LanTunConfig
decoded s = result (config_format.get s)

pub decoded-encoded : (c : LanTunConfig) → decoded (encoded c) ≡ ok c
unfolding decoded encoded
decoded-encoded c = rw (config_format.reads c []) refl
