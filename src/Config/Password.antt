-- ===== src/Config/Password.antt =====
-- The password and the signature of src/config/file_config.cpp.
use gravelbox.Base.{
  ◌≡◌, ◌↔◌, refl, ap, Bytes, [], ◌∷◌, true, false, not, if◌then◌else◌, ◌⊎◌, inl, inr, Option, none,
  some, ◌==◌, str_eq, str_eq_iff, length, Bool-cases, Option-cases, ok, throw, terminate, arith,
}
use gravelbox.Config.FileConfig.{
  Libraries, FileConfig, hash_size, is_empty, has_password, verify_hmac, verify_password,
  verify_signature, new_config, read_config,
}

-- HMAC-SHA-512 makes 64 bytes.
abbrev pub DigestLength : Libraries → Type 0
DigestLength lib = (key text md : Bytes) → lib.hmac key text ≡ some md → length md ≡ hash_size

mac_check :
    (m : Option Bytes) (mac : Bytes)
    → ((elim m [ none ↦ false | some md ↦ str_eq md mac ]) ≡ true) ↔ (m ≡ some mac)
mac_check none mac = (λ h. cc, λ h. cc)
mac_check (some md) mac = (λ h. ap some ((str_eq_iff md mac).0 h), λ h. (str_eq_iff md mac).1 (cc))

no_hash : (h : Bytes) → not (is_empty h) ≡ false → length h ≡ 0
no_hash [] e = refl
no_hash (c ∷ h) e = cc

hash_cases :
    (h : Bytes)
    → (is_empty h ≡ true) ⊎ ((length h == hash_size) ≡ true)
    → (length h ≡ 0) ⊎ (length h ≡ hash_size)
hash_cases [] e = inl refl
hash_cases (c ∷ h) e = ground arith

module _ (lib : Libraries) where
  -- A MAC is accepted exactly when it is the HMAC of the text under the key.
  pub verify_hmac_iff :
      (c : FileConfig lib) (text mac : Bytes)
      → (verify_hmac lib c text mac ≡ true) ↔ (lib.hmac c.key text ≡ some mac)
  unfolding verify_hmac
  verify_hmac_iff c text mac = mac_check (lib.hmac c.key text) mac

  -- If HMAC makes 64 bytes, a configuration without a password accepts no password at all.
  verify_password-none :
      DigestLength lib
      → (c : FileConfig lib) (password : Bytes) → has_password lib c ≡ false
      → verify_password lib c password ≡ false
  unfolding verify_password has_password
  verify_password-none digest c password h =
      elim (Bool-cases (verify_hmac lib c password c.password_hash)) [
        | inr n ↦ n
        | inl y ↦
            let made = (verify_hmac_iff c password c.password_hash).0 y in
            absurd
              (omega (arith, digest c.key password c.password_hash made, no_hash c.password_hash h))
      ]

  -- The signing key is accepted exactly when the signature file can be read, has 64 bytes and they are
  -- the HMAC of the configuration's text under that key.
  pub verify_signature_iff :
      (c : FileConfig lib) (key : Bytes)
      → ((verify_signature lib c key).0 ≡ ok true) ↔ (
          (sig : Bytes) × (lib.read_file c.signature ≡ some sig)
          × (lib.read_error c.signature ≡ none)
          × (length sig ≡ hash_size)
          × (lib.hmac key c.config ≡ some sig))
  unfolding verify_signature
  verify_signature_iff c key =
      let keyed = record c { key = key } in
      (
        λ h. elim (Option-cases (lib.read_file c.signature)) [
          | inl e ↦ absurd (ground arith)
          | inr (sig, e) ↦ elim (Option-cases (lib.read_error c.signature)) [
            | inl n ↦
                (sig, e, n, ground arith, (verify_hmac_iff keyed c.config sig).0 (ground arith))
            | inr (end, n) ↦ absurd (ground arith)
          ]
        ],
        λ (sig, e, whole, len, made).
            let accepted = (verify_hmac_iff keyed c.config sig).1 made in ground arith,
      )

  -- A key that is not accepted changes nothing but the key that is remembered, so another can be tried;
  -- with one that is accepted the text of the configuration is released too.
  pub verify_signature_state :
      (c : FileConfig lib) (key : Bytes)
      → (verify_signature lib c key).1 ≡ (elim (verify_signature lib c key).0 [
        | ok b ↦ if b then record c { key = key; config = [] } else record c { key = key }
        | throw x ↦ record c { key = key }
        | terminate ↦ record c { key = key }
      ])
  unfolding verify_signature
  verify_signature_state c key = ground arith

  -- A configuration that was loaded has no password, or a hash of 64 bytes.
  pub new_config-password_hash :
      (path : Bytes) (c : FileConfig lib)
      → new_config lib path ≡ ok c
      → (length c.password_hash ≡ 0) ⊎ (length c.password_hash ≡ hash_size)
  unfolding new_config read_config
  new_config-password_hash path c h = hash_cases c.password_hash (ground arith)
