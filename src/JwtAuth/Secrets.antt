-- ===== src/JwtAuth/Secrets.antt =====
-- internal/jwtauth/jwtauth.go: the file of the secret, written once and read at the start. The file
-- is a text; base64.RawURLEncoding is a parameter.
use Prim.Native.String.{◌++◌}
use pangaea.Prelude.{
  ℕ, ◌≡◌, refl, sym, ap, ◌∙◌, String, false, Option, none, some, List, Result, failed, done, is_nil,
  ◌==◌, arith, if◌then◌else◌,
}
use pangaea.Strings.{trim_space}
use pangaea.Formats.Text.{utf8}

-- What the URL-safe alphabet gives: decoding undoes encoding, a secret has characters, and no
-- white space is among them, so that a line of it is trimmed to it.
pub record RawUrl : Type 0 where
  pub encode : List ℕ → String
  pub decode : String → Option (List ℕ)
  pub decode-encode : (b : List ℕ) → decode (encode b) ≡ some b
  pub encode_some : (b : List ℕ) → is_nil b ≡ false → (encode b == "") ≡ false
  pub encode_line : (b : List ℕ) → trim_space (encode b ++ "\n") ≡ encode b

-- WriteSecretFile: the text of the file.
unfoldable pub write_secret_file : RawUrl → List ℕ → Result String String
write_secret_file b64 secret =
    if is_nil secret
    then failed "JWT secret must not be empty"
    else done (b64.encode secret ++ "\n")

-- A text that decodes to something is a secret, and any other stands for itself.
unfoldable pub secret_of : String → Option (List ℕ) → List ℕ
secret_of trimmed none = utf8 trimmed
secret_of trimmed (some decoded) = if is_nil decoded then utf8 trimmed else decoded

unfoldable pub read_secret : RawUrl → String → Result String (List ℕ)
unfolding secret_of
read_secret b64 trimmed =
    if trimmed == ""
    then failed "JWT secret file is empty"
    else done (secret_of trimmed (b64.decode trimmed))

-- LoadSecretFile, with the result of the read of the file.
unfoldable pub load_secret_file : RawUrl → Result String String → Result String (List ℕ)
unfolding read_secret
load_secret_file b64 (failed e) = failed e
load_secret_file b64 (done raw) = read_secret b64 (trim_space raw)

read_encoded :
    (b64 : RawUrl) (secret : List ℕ)
    → is_nil secret ≡ false
    → read_secret b64 (b64.encode secret) ≡ done secret
unfolding read_secret secret_of
read_encoded b64 secret some_bytes =
    rw (b64.encode_some secret some_bytes, b64.decode-encode secret, some_bytes) refl

-- A secret that is written is read back.
pub load-write_secret_file :
    (b64 : RawUrl) (secret : List ℕ) (text : String)
    → write_secret_file b64 secret ≡ done text
    → load_secret_file b64 (done text) ≡ done secret
unfolding write_secret_file load_secret_file
load-write_secret_file b64 secret text h =
    let some_bytes : is_nil secret ≡ false = ground (arith) in
    let line : b64.encode secret ++ "\n" ≡ text = ground (arith) in
    ap (λ t. read_secret b64 (trim_space t)) (sym line)
    ∙ ap (read_secret b64) (b64.encode_line secret)
    ∙ read_encoded b64 secret some_bytes
