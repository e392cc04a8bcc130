-- ===== src/JwtAuth.antt =====
-- internal/jwtauth/jwtauth.go: the tokens that an operator issues and the server verifies.
-- golang-jwt is a parameter.
pub mod Profiles
pub mod Tokens
pub mod Secrets
use pangaea.Prelude.{
  ℕ, ◌+◌, ◌≤◌, ◌<◌, ◌*◌, ◌≡◌, ◌≢◌, String, Bool, true, false, ◌||◌, not, List, [], ◌∷◌, ◌++◌,
  Option, none, some, Result, failed, done, contains, ◌==◌, if◌then◌else◌, ℤ, is_nonpositive,
  magnitude, is_nil,
}
use pangaea.Strings.{trim_space}

-- Claims, with the registered claims that it embeds. A missing date is `none`.
pub record Claims : Type 0 where
  pub profiles : List String
  pub subject : String
  pub issuer : String
  pub audience : List String
  pub issued_at : Option ℕ
  pub not_before : Option ℕ
  pub expires_at : Option ℕ

-- The options of jwt.ParseWithClaims.
pub record Options : Type 0 where
  pub issuer : String
  pub audience : String
  pub leeway : ℕ
  pub now : ℕ
  pub methods : List String

-- A key function gets the algorithm that the header of the token names.
abbrev pub KeyFunc : Type 0
KeyFunc = Option String → Result String (List ℕ)

-- golang-jwt: NewNumericDate, SignedString with HS256, and ParseWithClaims with the claims that it
-- fills and `Valid`. `carries t s c` says that t has the claims c under an HMAC by s.
pub record Library : Type 0 where
  pub numeric_date : ℕ → ℕ
  pub signed_string : Claims → List ℕ → Result String String
  pub parse_with_claims : String → KeyFunc → Options → Result String (Claims × Bool)
  pub carries : String → List ℕ → Claims → Bool

-- defaultLeeway, in nanoseconds
abbrev pub default_leeway : ℕ
default_leeway = 30 * 1000000000

abbrev pub hs256 : String
hs256 = "HS256"

-- slices.Contains(c.Profiles, name)
abbrev pub allows_profile : Claims → String → Bool
allows_profile c name = contains c.profiles name

-- One turn of the loop of normalizeProfiles, whose text is trimmed.
unfoldable pub keep_profile : List String → String → List String
keep_profile out p = if p == "" || contains out p then out else out ++ (p ∷ [])

unfoldable pub normalize_from : List String → List String → List String
normalize_from out [] = out
normalize_from out (p ∷ rest) = normalize_from (keep_profile out (trim_space p)) rest

abbrev pub normalize_profiles : List String → List String
normalize_profiles profiles = normalize_from [] profiles

-- The key function of Verify.
unfoldable pub key_for : List ℕ → KeyFunc
key_for secret none = failed "unexpected JWT signing method"
key_for secret (some alg) =
    if alg == hs256 then done secret else failed "unexpected JWT signing method"

-- now.Add(ttl), for a ttl that Issue lets through.
abbrev pub issued_claims : Library → String → List String → String → String → ℕ → ℤ → Claims
issued_claims lib subject profiles issuer audience now ttl = record {
  profiles = profiles;
  subject = subject;
  issuer = issuer;
  audience = audience ∷ [];
  issued_at = some (lib.numeric_date now);
  not_before = some (lib.numeric_date now);
  expires_at = some (lib.numeric_date (now + magnitude ttl));
}

unfoldable pub issue :
    Library → List ℕ → String → List String → String → String → ℕ → ℤ → Result String String
issue lib secret subject profiles issuer audience now ttl =
    if is_nil secret
    then failed "JWT secret must not be empty"
    else if subject == ""
    then failed "JWT subject must not be empty"
    else if is_nil (normalize_profiles profiles)
    then failed "JWT profiles must not be empty"
    else if issuer == "" || audience == ""
    then failed "JWT issuer and audience are required"
    else if is_nonpositive ttl
    then failed "JWT ttl must be positive"
    else lib.signed_string
        (issued_claims lib subject (normalize_profiles profiles) issuer audience now ttl) secret

-- The checks of Verify on the claims that the library returns.
unfoldable pub checked : Claims → Result String Claims
checked c =
    if c.subject == ""
    then failed "JWT subject is required"
    else if is_nil c.profiles
    then failed "JWT profiles must not be empty"
    else done c

unfoldable pub verified : Result String (Claims × Bool) → Result String Claims
unfolding checked
verified (failed e) = failed e
verified (done (c, valid)) =
    if valid
    then checked (record c { profiles = normalize_profiles c.profiles })
    else failed "invalid JWT"

abbrev pub options_of : String → String → ℕ → Options
options_of issuer audience now = record {
  issuer = issuer;
  audience = audience;
  leeway = default_leeway;
  now = now;
  methods = hs256 ∷ [];
}

unfoldable pub verify : Library → List ℕ → String → String → String → ℕ → Result String Claims
unfolding verified
verify lib secret token issuer audience now =
    if is_nil secret
    then failed "JWT secret must not be empty"
    else if trim_space token == ""
    then failed "JWT token must not be empty"
    else verified (lib.parse_with_claims token (key_for secret) (options_of issuer audience now))

-- The checks that ParseWithClaims makes on the claims, where an issuer and an audience are expected.
abbrev pub IsBefore : ℕ → Option ℕ → Type 0
IsBefore now none = Unit
IsBefore now (some limit) = now < limit

abbrev pub IsAfter : ℕ → Option ℕ → Type 0
IsAfter now none = Unit
IsAfter now (some start) = start ≤ now

abbrev pub later : ℕ → Option ℕ → Option ℕ
later leeway none = none
later leeway (some t) = some (t + leeway)

abbrev pub Accepts : Options → Claims → Type 0
Accepts o c =
    (c.issuer ≡ o.issuer)
    × (contains c.audience o.audience ≡ true)
    × IsBefore o.now (later o.leeway c.expires_at)
    × IsAfter (o.now + o.leeway) c.not_before

-- What golang-jwt documents: dates in whole seconds, a signed token parses to its claims where they
-- are accepted, and what parses was signed by the key, with a method that the options allow.
pub record Laws (lib : Library) : Type 0 where
  pub date_rounds : (t : ℕ) → (lib.numeric_date t ≤ t) × (t < lib.numeric_date t + 1000000000)
  pub signed_not_blank :
      (c : Claims) (s : List ℕ) (t : String)
      → lib.signed_string c s ≡ done t
      → (trim_space t == "") ≡ false
  pub parse_signed :
      (c : Claims) (s : List ℕ) (t : String) (key : KeyFunc) (o : Options)
      → lib.signed_string c s ≡ done t
      → key (some hs256) ≡ done s
      → contains o.methods hs256 ≡ true
      → Accepts o c
      → lib.parse_with_claims t key o ≡ done (c, true)
  pub parse_checked :
      (t : String) (key : KeyFunc) (o : Options) (c : Claims)
      → lib.parse_with_claims t key o ≡ done (c, true)
      → (o.issuer == "") ≡ false
      → (o.audience == "") ≡ false
      → Accepts o c
        × ((alg : String) × (s : List ℕ) × (contains o.methods alg ≡ true)
            × (key (some alg) ≡ done s)
            × (lib.carries t s c ≡ true))
