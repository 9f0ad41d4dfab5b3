-- ===== src/State/Keys.antt =====
-- Private keys of internal/v2state/state.go: the keyring, or the files of a test directory.
use Prim.Native.Char.{code}
use peercontext.Common.{
  Bool, not, ◌&&◌, none, some, String, length, ◌==◌, nat_eq, string_eq, if◌then◌else◌,
}
use peercontext.Common.Dict.{lookup, insert, delete}
use peercontext.Common.Text.{Bytes, codes, concat, trim_space, take_nine}
use peercontext.Errors.{plain, Result, ok, err}
use peercontext.Protocol.Platform.{Platform}
use peercontext.Protocol.Signing.{private_key_size}
use peercontext.State.Disk.{Local, system, lift, ◌>>=◌}

-- The directory of the manager, and PEERCTX_TEST_KEY_DIR, "" if it is not set.
pub record Manager : Type 0 where
  pub dir : String
  pub test_key_dir : String

-- strings.ReplaceAll(value, "/", "_")
unfoldable pub replace_slashes : String → String
replace_slashes String.[] = ""
replace_slashes (String.◌∷◌ c s) =
    let rest = replace_slashes s in if code c == b'/' then concat "_" rest else String.◌∷◌ c rest

-- strings.ReplaceAll(value, "..", "_")
unfoldable pub replace_dots : String → String
replace_dots String.[] = ""
replace_dots (String.◌∷◌ c String.[]) = String.◌∷◌ c ""
replace_dots (String.◌∷◌ c (String.◌∷◌ d s)) =
    let skipped = replace_dots s in
    let kept = replace_dots (String.◌∷◌ d s) in
    if code c == b'.' && code d == b'.' then concat "_" skipped else String.◌∷◌ c kept

-- safeKeyName
unfoldable pub safe_key_name : String → String
unfolding replace_slashes replace_dots
safe_key_name value = concat (replace_dots (replace_slashes value)) ".key"

module _ (p : Platform) (mgr : Manager) where
  -- testKeyName
  unfoldable pub test_key_name : String → String
  unfolding safe_key_name take_nine
  test_key_name project_id =
      concat (p.base64 (take_nine (p.sha256 (codes mgr.dir))))
        (concat "-" (safe_key_name project_id))

  unfoldable pub in_tests : Bool
  in_tests = not (mgr.test_key_dir == "")

  -- the name under which a key is kept
  unfoldable pub key_name : String → String
  unfolding test_key_name in_tests
  key_name project_id = if in_tests then test_key_name project_id else project_id

  -- storePrivateKey
  unfoldable pub store_private_key : String → Bytes → Local (Unit {0})
  store_private_key project_id key =
      system (λ m. (ok tt, record m { keys = insert (key_name project_id) (p.base64 key) m.keys }))

  -- loadPrivateKey
  unfoldable pub load_private_key : String → Local String
  unfolding in_tests
  load_private_key project_id = system (λ m. (
    elim (lookup (key_name project_id) m.keys) [
      | none ↦ err (plain "key not found")
      | some text ↦ ok (if in_tests then trim_space text else text)
    ],
    m,
  ))

  -- deletePrivateKey, where a key that is not there is no error to RemoveProfile
  unfoldable pub delete_private_key : String → Local (Unit {0})
  delete_private_key project_id =
      system (λ m. (ok tt, record m { keys = delete (key_name project_id) m.keys }))

  unfoldable pub decode_key : String → Result Bytes
  decode_key text = elim (p.base64_decode text) [
    | none ↦ err (plain "stored Project private key is invalid")
    | some key ↦
        if not (length key == private_key_size)
        then err (plain "stored Project private key is invalid")
        else ok key
  ]

  -- PrivateKey
  unfoldable pub private_key : String → Local Bytes
  unfolding decode_key
  private_key project_id = do text ← load_private_key project_id; lift (decode_key text)
