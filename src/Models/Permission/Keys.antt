-- ===== src/Models/Permission/Keys.antt =====
-- CopyEncryptKey and SetEncryptKey: the grantee of the copy gets the file's key.
use ods.Common.{ℕ, ◌≡◌, refl, true, Option, some, List, Text, length, text_eq_self}
use ods.Crypto.{Sha256, IsBytes, apply_passphrase}
use ods.Crypto.Keys.{apply_passphrase_twice, apply_passphrase_shape}
use ods.Models.Permission.{
  OdObjectPermission, copy_encrypt_key, set_encrypt_key, wrap_key, calculate_permission_mac,
  equals_permission_mac,
}

module _ (H : Sha256) (p : Text) where
  -- the file key that a permission gives its grantee
  abbrev pub file_key : OdObjectPermission → Option (List ℕ)
  file_key x = apply_passphrase H p x.permission_iv x.encrypt_key

  wrap_key_lem :
      (iv key : List ℕ) (dst : OdObjectPermission)
      → IsBytes key
      → length key ≡ 32
      → (q : OdObjectPermission) × (wrap_key H p iv key dst ≡ some q)
        × (file_key q ≡ some key)
        × (equals_permission_mac H p q ≡ true)
        × (q ≡ record dst {
          permission_iv = q.permission_iv;
          encrypt_key = q.encrypt_key;
          permission_mac = q.permission_mac;
        })
  unfolding wrap_key equals_permission_mac calculate_permission_mac
  wrap_key_lem iv key dst bk lk =
      let (d, wraps, unwraps) = apply_passphrase_twice H p iv key bk lk in
      let keyed : OdObjectPermission = record dst { permission_iv = iv; encrypt_key = d } in
      (
        record keyed { permission_mac = calculate_permission_mac H p keyed },
        rw (wraps, wrap_key),
        unwraps,
        text_eq_self _,
        refl,
      )

  -- CopyEncryptKey, with any new IV: where the source's key can be unwrapped at all, and its bytes
  -- are bytes, the copy unwraps to the same file key, carries a valid MAC, and differs from what the
  -- target was only in the IV, the wrapped key and the MAC.
  pub copy_encrypt_key_lem :
      (iv key : List ℕ) (src dst : OdObjectPermission)
      → IsBytes src.encrypt_key
      → file_key src ≡ some key
      → (q : OdObjectPermission) × (copy_encrypt_key H p iv src dst ≡ some q)
        × (file_key q ≡ some key)
        × (equals_permission_mac H p q ≡ true)
        × (q ≡ record dst {
          permission_iv = q.permission_iv;
          encrypt_key = q.encrypt_key;
          permission_mac = q.permission_mac;
        })
  unfolding copy_encrypt_key
  copy_encrypt_key_lem iv key src dst bk e =
      let (lk, bytes) = apply_passphrase_shape H p src.permission_iv src.encrypt_key key bk e in
      rw (e, copy_encrypt_key) (wrap_key_lem iv key dst bytes lk)

  -- SetEncryptKey, with any 32 byte key and any IV: the permission unwraps to that key, carries a
  -- valid MAC, and keeps all else.
  pub set_encrypt_key_lem :
      (key iv : List ℕ) (dst : OdObjectPermission)
      → IsBytes key
      → length key ≡ 32
      → (q : OdObjectPermission) × (set_encrypt_key H p key iv dst ≡ some q)
        × (file_key q ≡ some key)
        × (equals_permission_mac H p q ≡ true)
        × (q ≡ record dst {
          permission_iv = q.permission_iv;
          encrypt_key = q.encrypt_key;
          permission_mac = q.permission_mac;
        })
  unfolding set_encrypt_key
  set_encrypt_key_lem key iv dst bk lk = wrap_key_lem iv key dst bk lk
