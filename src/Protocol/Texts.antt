-- ===== src/Protocol/Texts.antt =====
-- Which texts name a protocol.
use lantun.Base.{
  ℕ, ◌≡◌, refl, ◌≢◌, ◌≤◌, ◌↔◌, [], ◌∷◌, ◌++◌, map, Text, codes, ok, arith, All, Bool, true, false,
  ◌||◌, ◌==◌, nat_eq, bytes_eq,
}
use lantun.Protocol.{
  TunnelProtocol, tcp, udp, fmt, ascii_lower, NonAscii, to_lowercase, from_str, deserialize,
  serialize,
}

-- What is printed is read back as the same protocol.
pub from_str-fmt : (non_ascii : NonAscii) (p : TunnelProtocol) → from_str non_ascii (fmt p) ≡ ok p
unfolding from_str fmt bytes_eq
from_str-fmt non_ascii tcp = refl
from_str-fmt non_ascii udp = refl

-- The letters of the two names.
abbrev pub name_letter : ℕ → Bool
name_letter c = c == b't' || c == b'c' || c == b'p' || c == b'u' || c == b'd'

-- What the Unicode tables say of a character from 128 on: its lower case is not empty and begins
-- with none of these letters.
abbrev pub Far : Text → Type 0
Far [] = ⊥
Far (d ∷ _) = name_letter d ≡ false

abbrev pub IsUnicode : NonAscii → Type 0
IsUnicode non_ascii =
    (before : Text) (c : ℕ) (after : Text) → 128 ≤ c → Far (non_ascii before c after)

module _ (non_ascii : NonAscii) where
  -- A protocol that was serialized is deserialized as the same protocol, whatever the Unicode
  -- tables say.
  pub deserialize-serialize :
      {E : Type 0} (custom : Text → E) (p : TunnelProtocol)
      → deserialize non_ascii custom (ok (serialize p)) ≡ ok p
  unfolding deserialize serialize bytes_eq
  deserialize-serialize custom tcp = refl
  deserialize-serialize custom udp = refl

  Far-ne : (l rest : Text) (x : ℕ) (w : Text) → Far l → name_letter x ≡ true → l ++ rest ≢ x ∷ w
  Far-ne [] rest x w far letter e = absurd far
  Far-ne (d ∷ l) rest x w far letter e = ground arith

  Far-ne_nil : (l rest : Text) → Far l → l ++ rest ≢ []
  Far-ne_nil [] rest far e = absurd far
  Far-ne_nil (d ∷ l) rest far e = cc

  module _ (unicode : IsUnicode non_ascii) where
    -- The lower case of a text is a word over those letters just if its ASCII lower case is.
    to_lowercase_iff :
        (before s w : Text)
        → All (λ x. name_letter x ≡ true) w
        → (to_lowercase non_ascii before s ≡ w) ↔ (map ascii_lower s ≡ w)
    unfolding to_lowercase
    to_lowercase_iff before [] w letters = (λ e. e, λ e. e)
    to_lowercase_iff before (c ∷ s) [] letters = ground (
      arith,
      unicode before c s,
      Far-ne_nil (non_ascii before c s) (to_lowercase non_ascii (before ++ (c ∷ [])) s),
    )
    to_lowercase_iff before (c ∷ s) (x ∷ w) letters = ground (
      arith,
      unicode before c s,
      Far-ne (non_ascii before c s) (to_lowercase non_ascii (before ++ (c ∷ [])) s) x w,
      to_lowercase_iff (before ++ (c ∷ [])) s w letters.1,
    )

    -- from_str gives a protocol exactly if the text, with its ASCII capitals made small, is the
    -- name of that protocol, if no character above ASCII has a lower case that is empty or begins
    -- with a letter of a name.
    pub from_str_iff :
        (p : TunnelProtocol) (s : Text)
        → (from_str non_ascii s ≡ ok p) ↔ (map ascii_lower s ≡ fmt p)
    unfolding from_str fmt
    from_str_iff tcp s = ground (arith, to_lowercase_iff [] s (codes "tcp"))
    from_str_iff udp s = ground (arith, to_lowercase_iff [] s (codes "udp"))
