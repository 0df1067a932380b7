-- ===== src/Locker/Ledgers/Keys.antt =====
-- The signing key of a ledger: internal/locker/ledger.go, from loadOrGenerateKey on.
use complytime_core.Prelude.{String, List, [], ◌∷◌, concat, split_char, drop_empty, trim_space}
use complytime_core.Errors.{Error, plain, Result, ok, err, ◌>>=◌, ◌>>◌, context}

-- What os.ReadFile gives.
pub data FileRead : Type 0 where
  content : String → FileRead
  not_there : FileRead
  failed : Error → FileRead

-- The files of the key and `golang.org/x/mod/sumdb/note`. The steps that write a file atomically are
-- MkdirAll, CreateTemp, Chmod, Fprintf, Close and Rename.
pub record KeyFiles : Type 0 where
  pub read_file : String → FileRead
  pub new_signer : String → Result (Unit {0})
  pub new_verifier : String → Result (Unit {0})
  pub generate_key : String → Result (String × String)
  pub mkdir_all : Result (Unit {0})
  pub create_temp : Result (Unit {0})
  pub chmod : Result (Unit {0})
  pub write_temp : String → Result (Unit {0})
  pub close : Result (Unit {0})
  pub rename : String → Result (Unit {0})

-- splitLines: the lines that are not empty.
unfoldable pub split_lines : String → List String
unfolding split_char drop_empty trim_space
split_lines s = drop_empty (split_char b'\n' (trim_space s))

unfoldable pub parse_key_file : KeyFiles → String → Result (String × String)
unfolding split_lines
parse_key_file f text = elim (split_lines text) [
  | [] ↦ err (plain "key file must have signer and verifier lines")
  | (skey ∷ []) ↦ err (plain "key file must have signer and verifier lines")
  | (skey ∷ (vkey ∷ more)) ↦ do
    context "invalid signer key" (f.new_signer skey)
    context "invalid verifier key" (f.new_verifier vkey)
    ok (skey, vkey)
]

unfoldable pub generate_and_persist : KeyFiles → String → String → Result (String × String)
generate_and_persist f path origin = do
  keys ← context "generating key" (f.generate_key origin)
  f.mkdir_all
  f.create_temp
  f.chmod
  f.write_temp (concat keys.0 (concat "\n" (concat keys.1 "\n")))
  f.close
  f.rename path
  ok keys

unfoldable pub load_or_generate_key : KeyFiles → String → String → Result (String × String)
unfolding parse_key_file generate_and_persist
load_or_generate_key f path origin = elim (f.read_file path) [
  | content text ↦ parse_key_file f text
  | failed e ↦ context "reading key file" (err e)
  | not_there ↦ generate_and_persist f path origin
]
