-- ===== src/Protocol.antt =====
-- `TunnelProtocol` and its texts (lantun-core/src/lib.rs).
pub mod Texts
use lantun.Base.{
  ℕ, ◌+◌, ◌<◌, Bool, true, false, ◌&&◌, List, [], ◌∷◌, ◌++◌, Text, codes, Outcome, ok, err, map_err,
  ◌>>=◌, Eq, ◌==◌, bytes_eq, if◌then◌else◌, leb, ltb, ◌≡◌, refl,
}

pub data TunnelProtocol : Type 0 where
  tcp udp : TunnelProtocol

TunnelProtocol-discrete : Discrete TunnelProtocol
TunnelProtocol-discrete = hlevel

instance unfoldable pub protocol_eq : Eq TunnelProtocol
unfolding TunnelProtocol-discrete
protocol_eq = record { dec = TunnelProtocol-discrete }

-- `Display`
unfoldable pub fmt : TunnelProtocol → Text
fmt tcp = codes "tcp"
fmt udp = codes "udp"

-- `char::to_lowercase` below 128.
abbrev pub ascii_lower : ℕ → ℕ
ascii_lower c = if leb b'A' c && leb c b'Z' then c + 32 else c

-- The characters from 128 on go by the Unicode tables, which may look at the text around them.
abbrev pub NonAscii : Type 0
NonAscii = (before : Text) (c : ℕ) (after : Text) → Text

module _ (non_ascii : NonAscii) where
  -- `str::to_lowercase`
  unfoldable pub to_lowercase : (before s : Text) → Text
  to_lowercase before [] = []
  to_lowercase before (c ∷ s) =
      (if ltb c 128 then ascii_lower c ∷ [] else non_ascii before c s)
      ++ to_lowercase (before ++ (c ∷ [])) s

  -- `FromStr`; the error is the message of the `io::Error`.
  unfoldable pub from_str : Text → Outcome Text TunnelProtocol
  unfolding to_lowercase
  from_str s =
      let lower = to_lowercase [] s in
      if lower == codes "tcp"
      then ok tcp
      else if lower == codes "udp"
      then ok udp
      else err (codes "Invalid protocol: " ++ s)

  -- `Deserialize`: the text that the deserializer gives, and its `Error::custom`.
  unfoldable pub deserialize : {E : Type 0} → (Text → E) → Outcome E Text → Outcome E TunnelProtocol
  unfolding from_str
  deserialize custom text = do s ← text; map_err custom (from_str s)

-- `Serialize`: the text given to `serialize_str`.
unfoldable pub serialize : TunnelProtocol → Text
serialize tcp = codes "tcp"
serialize udp = codes "udp"
