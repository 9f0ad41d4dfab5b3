-- ===== src/State/Profiles/Putting.antt =====
-- What `PutProfile` of internal/v2state/state.go writes, and that `PrivateKey` reads the key back.
use peercontext.Common.{
  ◌≡◌, refl, ◌⊎◌, sym, ap, ◌∙◌, not, some, inl, inr, [], String, length, arith, Bool-cases, ◌==◌,
  nat_eq, string_eq,
}
use peercontext.Common.Dict.{lookup, insert, lookup-insert_self}
use peercontext.Common.Text.{Bytes, trim_space}
use peercontext.Errors.{GoError, Result, ok, err, fail_if, plain}
use peercontext.Protocol.Platform.{Platform}
use peercontext.Protocol.Signing.{private_key_size}
use peercontext.State.Model.{State, StateJson, Profile}
use peercontext.State.Disk.{
  Machine, system, load, save, read_file, next_fault, Local, lift, ◌>>◌, ◌>>=◌,
}
use peercontext.State.Disk.Atomic.{save-Replaced}
use peercontext.State.Disk.Cases.{bind-cases, system-cases}
use peercontext.State.Keys.{
  Manager, key_name, store_private_key, private_key, decode_key, in_tests, load_private_key,
}
use peercontext.State.Profiles.{update, with_profile, stored_in, put_profile}
use peercontext.State.Profiles.Update.{update_err}

module _ (p : Platform) (json : StateJson) (mgr : Manager) where
  store_private_key-file :
      (id : String) (key : Bytes) (m : Machine) → (store_private_key p mgr id key m).1.file ≡ m.file
  unfolding store_private_key
  store_private_key-file id key m =
      elim (system-cases
        (λ n. (ok tt, record n { keys = insert (key_name p mgr id) (p.base64 key) n.keys })) m) [
          | inl e ↦ ap (λ (r : Result (Unit {0}) × Machine). r.1.file) e
          | inr e ↦ ap (λ (r : Result (Unit {0}) × Machine). r.1.file) e
        ]

  stored_lookup :
      (id : String) (key : Bytes) (m : Machine)
      → (store_private_key p mgr id key m).0 ≡ ok tt
      → lookup (key_name p mgr id) (store_private_key p mgr id key m).1.keys ≡ some (p.base64 key)
  unfolding store_private_key
  stored_lookup id key m h =
      elim (system-cases
        (λ n. (ok tt, record n { keys = insert (key_name p mgr id) (p.base64 key) n.keys })) m) [
          | inl e ↦ absurd (ground (arith, e))
          | inr e ↦
              ap (λ (r : Result (Unit {0}) × Machine). lookup (key_name p mgr id) r.1.keys) e
              ∙ lookup-insert_self (key_name p mgr id) (p.base64 key) m.keys
        ]

  abbrev change : Profile → State → Result State
  change r s = ok (with_profile (stored_in p json mgr r) s)

  abbrev stored : Profile → Bytes → Machine → Machine
  stored r key m = (store_private_key p mgr r.project_id key m).1

  abbrev put : Profile → Bytes → Local (Unit {0})
  put r key = store_private_key p mgr r.project_id key >> update json (change r)

  abbrev check : Bytes → Local (Unit {0})
  check key =
      lift (fail_if (not (length key == private_key_size)) (plain "invalid Project private key"))

  -- A `PutProfile` fails and leaves the file, or it stores the key and then changes the state.
  put_profile-cases :
      (r : Profile) (key : Bytes) (m : Machine)
      → ((e : GoError) × ((put_profile p json mgr r key m).0 ≡ err e)
          × ((put_profile p json mgr r key m).1.file ≡ m.file))
        ⊎ ((length key ≡ private_key_size)
            × ((store_private_key p mgr r.project_id key m).0 ≡ ok tt)
            × (put_profile p json mgr r key m ≡ update json (change r) (stored r key m)))
  unfolding put_profile lift
  put_profile-cases r key m = elim (bind-cases (check key) (λ _. put r key) m) [
    | inl (x, e, same) ↦ inl (
      x,
      ap (λ (q : Result (Unit {0}) × Machine). q.0) same,
      ap (λ (q : Result (Unit {0}) × Machine). q.1.file) same,
    )
    | inr (u, e, same) ↦
        elim (bind-cases (store_private_key p mgr r.project_id key) (λ _. update json (change r))
          m) [
            | inl (x, f, again) ↦ inl (
              x,
              ap (λ (q : Result (Unit {0}) × Machine). q.0) (same ∙ again),
              ap (λ (q : Result (Unit {0}) × Machine). q.1.file) (same ∙ again)
                  ∙ store_private_key-file r.project_id key m,
            )
            | inr (v, f, again) ↦ inr (ground arith, f, same ∙ again)
          ]
  ]

  -- A `PutProfile` that fails, in storing the key, in reading or in writing, leaves the state file as
  -- it was.
  pub put_profile_err :
      (r : Profile) (key : Bytes) (m : Machine) (e : GoError)
      → (put_profile p json mgr r key m).0 ≡ err e
      → (put_profile p json mgr r key m).1.file ≡ m.file
  put_profile_err r key m e h = elim (put_profile-cases r key m) [
    | inl (x, f, same) ↦ same
    | inr (size, f, same) ↦
        ap (λ (q : Result (Unit {0}) × Machine). q.1.file) same
        ∙ update_err json (change r) (stored r key m) e
            (ap (λ (q : Result (Unit {0}) × Machine). q.0) (sym same) ∙ h)
        ∙ store_private_key-file r.project_id key m
  ]

  load-keys : (m : Machine) → (load json m).1.keys ≡ m.keys
  unfolding load read_file system ◌>>=◌
  load-keys m = elim (Bool-cases (next_fault m.faults).0) [
    | inl bad ↦ rw (bad, load, system) refl
    | inr good ↦ rw (good, load, system) refl
  ]

  -- A change of the state keeps the keys.
  update-keys : (f : State → Result State) (m : Machine) → (update json f m).1.keys ≡ m.keys
  unfolding update
  update-keys f m = elim (bind-cases (load json) (λ s. lift (f s) >>= save json) m) [
    | inl (x, e, same) ↦ ap (λ (q : Result (Unit {0}) × Machine). q.1.keys) same ∙ load-keys m
    | inr (s, e, same) ↦ elim (bind-cases (lift (f s)) (save json) (load json m).1) [
      | inl (x, g, again) ↦
          ap (λ (q : Result (Unit {0}) × Machine). q.1.keys) (same ∙ again) ∙ load-keys m
      | inr (s', g, again) ↦
          ap (λ (q : Result (Unit {0}) × Machine). q.1.keys) (same ∙ again)
          ∙ (save-Replaced json s' (load json m).1).keys
          ∙ load-keys m
    ]
  ]

  loaded_key :
      (id text : String) (m : Machine)
      → m.faults ≡ []
      → lookup (key_name p mgr id) m.keys ≡ some text
      → trim_space text ≡ text
      → (load_private_key p mgr id m).0 ≡ ok text
  unfolding load_private_key system
  loaded_key id text m quiet found trims = elim (Bool-cases (in_tests p mgr)) [
    | inl e ↦ rw (quiet, found, e) (ap ok trims)
    | inr e ↦ rw (quiet, found, e) refl
  ]

  decoded_key :
      (key : Bytes)
      → p.base64_decode (p.base64 key) ≡ some key
      → length key ≡ private_key_size
      → decode_key p mgr (p.base64 key) ≡ ok key
  unfolding decode_key
  decoded_key key decodes size = ground (arith, decodes)

  -- A key that is in the store, well encoded and of the right length is read.
  read_key :
      (id : String) (key : Bytes) (m : Machine)
      → (load_private_key p mgr id m).0 ≡ ok (p.base64 key)
      → decode_key p mgr (p.base64 key) ≡ ok key
      → (private_key p mgr id m).0 ≡ ok key
  unfolding private_key lift
  read_key id key m loaded decodes =
      elim (bind-cases (load_private_key p mgr id) (λ text. lift (decode_key p mgr text)) m) [
        | inl (x, e, same) ↦ absurd (ground (arith, e))
        | inr (text, e, same) ↦
            let as_loaded : text ≡ p.base64 key = ground (arith, e) in
            ap (λ (q : Result Bytes × Machine). q.0) same
            ∙ ap (decode_key p mgr) as_loaded
            ∙ decodes
      ]

  -- After a `PutProfile` that succeeds, `PrivateKey` of the same Project returns the key that was put,
  -- if no call of the system fails, base64 reads back the key, and the text has no space at its ends.
  pub private_key-put_profile :
      (r : Profile) (key : Bytes) (m : Machine)
      → p.base64_decode (p.base64 key) ≡ some key
      → trim_space (p.base64 key) ≡ p.base64 key
      → (put_profile p json mgr r key m).0 ≡ ok tt
      → (put_profile p json mgr r key m).1.faults ≡ []
      → (private_key p mgr r.project_id (put_profile p json mgr r key m).1).0 ≡ ok key
  private_key-put_profile r key m decodes trims h quiet = elim (put_profile-cases r key m) [
    | inl (x, e, same) ↦ absurd (ground (arith, e))
    | inr (size, f, same) ↦
        let after = (put_profile p json mgr r key m).1 in
        let found : lookup (key_name p mgr r.project_id) after.keys ≡ some (p.base64 key) =
          ap (λ (q : Result (Unit {0}) × Machine). lookup (key_name p mgr r.project_id) q.1.keys)
            same
          ∙ ap (lookup (key_name p mgr r.project_id)) (update-keys (change r) (stored r key m))
          ∙ stored_lookup r.project_id key m f in
        read_key r.project_id key after
          (loaded_key r.project_id (p.base64 key) after quiet found trims)
          (decoded_key key decodes size)
  ]
