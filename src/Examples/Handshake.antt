-- ===== src/Examples/Handshake.antt =====
-- The handshake, its tokens and its secret at concrete inputs: a library that signs one token.
use Prim.Native.Char.{Char, char, code}
use Prim.Native.String.{◌++◌}
use text.Mathlib.TextLemmas.{cons-append, cons-ne-nil}
use pangaea.Prelude.{
  ℕ, ◌+◌, ◌≡◌, refl, sym, ◌∙◌, ap, subst, String, Bool, true, false, ◌&&◌, List, [], ◌∷◌, Option,
  none, some, Result, failed, done, contains, is_nil, eqb, ltb, leb, ◌==◌, arith, eq_iff, ==-false,
  Bool-cases, inl, inr, if◌then◌else◌, pos,
}
use pangaea.Strings.{trim_space, trim_left, trim_right}
use pangaea.Formats.Text.{is_space}
use pangaea.JwtAuth.{
  Claims, Options, Library, Laws, Accepts, hs256, issue, issued_claims, verify, normalize_profiles,
  normalize_from, keep_profile,
}
use pangaea.JwtAuth.Tokens.{verify-issue}
use pangaea.JwtAuth.Secrets.{RawUrl}
use pangaea.Examples.{encode, encode_byte, decode, decode-encode}

-- The claims that the library signs.
abbrev pub claims : Claims
claims = record {
  profiles = "p" ∷ [];
  subject = "n1";
  issuer = "pangaea";
  audience = "agents" ∷ [];
  issued_at = some 100;
  not_before = some 100;
  expires_at = some 160000000100;
}

abbrev is_one : String → List String → Bool
is_one s (t ∷ []) = t == s
is_one s _ = false

abbrev is_at : ℕ → Option ℕ → Bool
is_at t (some u) = eqb u t
is_at t none = false

abbrev is_key : List ℕ → Bool
is_key (k ∷ []) = eqb k 7
is_key _ = false

abbrev are_claims : Claims → Bool
are_claims c =
    is_one "p" c.profiles
    && c.subject == "n1"
    && c.issuer == "pangaea"
    && is_one "agents" c.audience
    && is_at 100 c.issued_at
    && is_at 100 c.not_before
    && is_at 160000000100 c.expires_at

abbrev are_accepted : Options → Bool
are_accepted o =
    o.issuer == "pangaea"
    && o.audience == "agents"
    && contains o.methods hs256
    && ltb o.now (160000000100 + o.leeway)
    && leb 100 (o.now + o.leeway)

abbrev opened : Options → Result String (List ℕ) → Result String (Claims × Bool)
opened o (failed e) = failed e
opened o (done k) = if is_key k && are_accepted o then done (claims, true) else failed "invalid"

abbrev pub library : Library
library = record {
  numeric_date = λ t. t;
  signed_string = λ c k. if is_key k && are_claims c then done "h.c.s" else failed "no";
  parse_with_claims =
      λ t key o. if t == "h.c.s" then opened o (key (some hs256)) else failed "malformed";
  carries = λ t k c. t == "h.c.s" && is_key k && are_claims c;
}

is_one_inv : (s : String) (l : List String) → is_one s l ≡ true → l ≡ s ∷ []
is_one_inv s [] h = cc
is_one_inv s (t ∷ []) h = ap (λ x. x ∷ []) ((eq_iff t s).0 h)
is_one_inv s (t ∷ u ∷ l) h = cc

is_at_inv : (t : ℕ) (o : Option ℕ) → is_at t o ≡ true → o ≡ some t
is_at_inv t none h = cc
is_at_inv t (some u) h = let e : u ≡ t = ground (arith) in ap some e

are_claims_inv : (c : Claims) → are_claims c ≡ true → c ≡ claims
are_claims_inv c h =
    let e1 : c.profiles ≡ "p" ∷ [] = is_one_inv "p" c.profiles (ground (arith)) in
    let e2 : c.subject ≡ "n1" = ground (arith, eq_iff c.subject "n1") in
    let e3 : c.issuer ≡ "pangaea" = ground (arith, eq_iff c.issuer "pangaea") in
    let e4 : c.audience ≡ "agents" ∷ [] = is_one_inv "agents" c.audience (ground (arith)) in
    let e5 = is_at_inv 100 c.issued_at (ground (arith)) in
    let e6 = is_at_inv 100 c.not_before (ground (arith)) in
    let e7 = is_at_inv 160000000100 c.expires_at (ground (arith)) in
    λ i. record {
      profiles = e1 i;
      subject = e2 i;
      issuer = e3 i;
      audience = e4 i;
      issued_at = e5 i;
      not_before = e6 i;
      expires_at = e7 i;
    }

is_key_inv : (k : List ℕ) → is_key k ≡ true → k ≡ 7 ∷ []
is_key_inv [] h = cc
is_key_inv (k ∷ []) h = let e : k ≡ 7 = ground (arith) in ap (λ x. x ∷ []) e
is_key_inv (k ∷ j ∷ l) h = cc

signed_inv :
    (c : Claims) (k : List ℕ) (t : String)
    → library.signed_string c k ≡ done t
    → (is_key k ≡ true) × (c ≡ claims) × (t ≡ "h.c.s")
signed_inv c k t h =
    let one : is_key k ≡ true = ground (arith) in
    (one, are_claims_inv c (ground (arith)), ground (arith))

signs : (o : Options) → are_accepted o ≡ true → Accepts o claims
signs o h = (
  ground (arith, eq_iff o.issuer "pangaea"),
  ground (arith, eq_iff "agents" o.audience, eq_iff o.audience "agents"),
  ground (arith),
  ground (arith),
)

signs_back :
    (o : Options) → contains o.methods hs256 ≡ true → Accepts o claims → are_accepted o ≡ true
signs_back o m a = ground (
  arith,
  a.0,
  a.1,
  a.2,
  a.3,
  m,
  eq_iff o.issuer "pangaea",
  eq_iff "agents" o.audience,
  eq_iff o.audience "agents",
)

opened_inv :
    (o : Options) (r : Result String (List ℕ)) (c : Claims)
    → opened o r ≡ done (c, true)
    → (k : List ℕ) × (r ≡ done k) × (is_key k ≡ true) × (are_accepted o ≡ true) × (claims ≡ c)
opened_inv o (failed e) c h = cc
opened_inv o (done k) c h = elim (Bool-cases (is_key k && are_accepted o)) [
  | inl e ↦ let g = rw e at h in (k, refl, ground (arith), ground (arith), cc)
  | inr e ↦ let g = rw e at h in cc
]

pub library-Laws : Laws library
library-Laws = record {
  date_rounds = λ t. (omega arith, omega arith);
  signed_not_blank = λ c k t h.
      subst (λ x. (trim_space x == "") ≡ false) (sym (signed_inv c k t h).2)
        (unfold trim_space trim_left trim_right in refl);
  parse_signed = λ c k t key o h keyed allowed accepted.
      let (one, same, token) = signed_inv c k t h in
      let fine = signs_back o allowed (subst (Accepts o) same accepted) in
      rw (token, keyed, one, fine, same) refl;
  parse_checked = λ t key o c h issuer audience.
      let (k, keyed, one, fine, same) = opened_inv o (key (some hs256)) c (ground (arith)) in
      (
        subst (Accepts o) same (signs o fine),
        (hs256, k, ground (arith, fine), keyed, rw⁻¹ same (ground (arith, one, eq_iff t "h.c.s"))),
      );
}

pub token_issued :
    issue library (7 ∷ []) "n1" ("p" ∷ []) "pangaea" "agents" 100 (pos 160000000000) ≡ done "h.c.s"
unfolding issue normalize_from keep_profile trim_space trim_left trim_right
token_issued = refl

verify-issue_example :
    verify library (7 ∷ []) "h.c.s" "pangaea" "agents" 200
    ≡ done (
        issued_claims library "n1"
          (normalize_profiles ("p" ∷ []))
          "pangaea"
          "agents"
          100
          (pos 160000000000))
verify-issue_example =
    verify-issue library library-Laws (7 ∷ []) "n1" ("p" ∷ []) "pangaea" "agents" 100
      (pos 160000000000) "h.c.s" 200 token_issued (omega arith) (omega arith)

-- Texts without white space.
abbrev pub Solid : String → Type 0
Solid String.[] = Unit
Solid (String.◌∷◌ c s) = (is_space (code c) ≡ false) × Solid s

encode_byte-Solid : (b : ℕ) (s : String) → Solid s → Solid (encode_byte b s)
unfolding encode_byte
encode_byte-Solid ℕ.zero s h = (refl, h)
encode_byte-Solid (ℕ.suc b) s h = (refl, encode_byte-Solid b s h)

pub encode-Solid : (bs : List ℕ) → Solid (encode bs)
unfolding encode
encode-Solid [] = tt
encode-Solid (b ∷ bs) = encode_byte-Solid b (encode bs) (encode-Solid bs)

trim_line_end : (s : String) → Solid s → trim_right (s ++ "\n") ≡ s
unfolding trim_right
trim_line_end String.[] h = refl
trim_line_end (String.◌∷◌ c s) h = rw (cons-append c s "\n") (
    rw (trim_line_end s h.1, h.0)
      (elim (Bool-cases (s == "")) [ inl e ↦ rw e refl | inr e ↦ rw e refl ]))

left_line :
    (c : Char) (s : String)
    → is_space (code c) ≡ false
    → trim_left (String.◌∷◌ c s ++ "\n") ≡ String.◌∷◌ c s ++ "\n"
unfolding trim_left
left_line c s h = rw (cons-append c s "\n") (rw h refl)

pub trim_line : (s : String) → Solid s → trim_space (s ++ "\n") ≡ s
unfolding trim_space
trim_line String.[] h = unfold trim_left trim_right in refl
trim_line (String.◌∷◌ c s) h = ap trim_right (left_line c s h.0) ∙ trim_line_end (String.◌∷◌ c s) h

byte_some : (b : ℕ) (s : String) → (encode_byte b s == "") ≡ false
unfolding encode_byte
byte_some ℕ.zero s = ==-false (String.◌∷◌ (char 46 tt) s) "" (λ e. cons-ne-nil _ s e)
byte_some (ℕ.suc b) s =
    ==-false (String.◌∷◌ (char 49 tt) (encode_byte b s)) "" (λ e. cons-ne-nil _ (encode_byte b s) e)

pub encode_some : (bs : List ℕ) → is_nil bs ≡ false → (encode bs == "") ≡ false
unfolding encode
encode_some [] h = cc
encode_some (b ∷ bs) h = byte_some b (encode bs)

abbrev pub raw_url : RawUrl
raw_url = record {
  encode = encode;
  decode = decode;
  decode-encode = decode-encode;
  encode_some = encode_some;
  encode_line = λ b. trim_line (encode b) (encode-Solid b);
}
