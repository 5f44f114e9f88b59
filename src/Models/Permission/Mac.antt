-- ===== src/Models/Permission/Mac.antt =====
-- What the MAC of a permission binds: the capabilities, and the key.
use mathlib.Core.Bool.{false≢true}
use ods.Common.{
  ℕ, ◌≡◌, ◌≢◌, refl, sym, ap, ◌∙◌, Bool, true, false, List, [], ◌∷◌, ◌++◌, Text, codes, get_or,
  drop, length, text_eq, text_eq_iff, text_eq_sound, Bool-cases, ◌<◌, ◌/◌, ◌%◌, ◌⊎◌, inl, inr,
  arith,
}
use ods.Crypto.{Sha256, IsBytes, hex_digit, mac_text, format_bool, hex_encode}
use ods.Models.Permission.{OdObjectPermission, equals_permission_mac, calculate_permission_mac}

head : Text → ℕ
head s = get_or s 0 0

append_cancel : (s t u : Text) → s ++ t ≡ s ++ u → t ≡ u
append_cancel [] t u e = e
append_cancel (x ∷ s) t u e = append_cancel s t u (cc)

-- The words for the truth values differ at once, so equal texts begin with equal values.
format_bool-append :
    (a b : Bool) (s t : Text) → format_bool a ++ s ≡ format_bool b ++ t → (a ≡ b) × (s ≡ t)
unfolding head
format_bool-append true true s t e = (refl, append_cancel (codes "true") s t e)
format_bool-append true false s t e = absurd (omega (arith, ap head e))
format_bool-append false true s t e = absurd (omega (arith, ap head e))
format_bool-append false false s t e = (refl, append_cancel (codes "false") s t e)

-- One capability and the comma behind it.
flag :
    (a b : Bool) (s t : Text) (x : ℕ)
    → format_bool a ++ (x ∷ s) ≡ format_bool b ++ (x ∷ t)
    → (a ≡ b) × (s ≡ t)
flag a b s t x e =
    let (same, rest) = format_bool-append a b (x ∷ s) (x ∷ t) e in
    (same, append_cancel (x ∷ []) s t rest)

mac_text_inv :
    (p g : Text) (c r u d s c' r' u' d' s' : Bool) (k k' : List ℕ)
    → mac_text p g c r u d s k ≡ mac_text p g c' r' u' d' s' k'
    → (c ≡ c') × (r ≡ r') × (u ≡ u') × (d ≡ d') × (s ≡ s') × (hex_encode k ≡ hex_encode k')
unfolding mac_text
mac_text_inv p g c r u d s c' r' u' d' s' k k' e =
    let e0 =
      append_cancel (codes ":") _ _
        (append_cancel g _ _ (append_cancel (codes ":") _ _ (append_cancel p _ _ e))) in
    let (ec, e1) = flag c c' _ _ b',' e0 in
    let (er, e2) = flag r r' _ _ b',' e1 in
    let (eu, e3) = flag u u' _ _ b',' e2 in
    let (ed, e4) = flag d d' _ _ b',' e3 in
    let (es, e5) = flag s s' _ _ b':' e4 in (ec, er, eu, ed, es, e5)

-- Equal digits stand for equal halves of a byte.
hex_digit_inj : (a b : ℕ) → a < 16 → b < 16 → hex_digit a ≡ hex_digit b → a ≡ b
unfolding hex_digit
hex_digit_inj a b ha hb e = ground arith

hex_encode_inj : (k k' : List ℕ) → IsBytes k → IsBytes k' → hex_encode k ≡ hex_encode k' → k ≡ k'
unfolding hex_encode
hex_encode_inj [] [] b b' e = refl
hex_encode_inj [] (y ∷ k') b b' e = absurd (omega (arith, ap length e))
hex_encode_inj (x ∷ k) [] b b' e = absurd (omega (arith, ap length e))
hex_encode_inj (x ∷ k) (y ∷ k') b b' e =
    let same : x ≡ y = omega (
      arith,
      b.0,
      b'.0,
      hex_digit_inj (x / 16) (y / 16) (omega arith) (omega arith) (ap (λ l. get_or l 0 0) e),
      hex_digit_inj (x % 16) (y % 16) (omega arith) (omega arith) (ap (λ l. get_or l 1 0) e),
    ) in
    cc (same, hex_encode_inj k k' b.1 b'.1 (ap (drop 2) e))

-- The capabilities and the wrapped key are the same.
pub record SameGrant (a b : OdObjectPermission) : Type 0 where
  pub creates : a.allow_create ≡ b.allow_create
  pub reads : a.allow_read ≡ b.allow_read
  pub updates : a.allow_update ≡ b.allow_update
  pub deletes : a.allow_delete ≡ b.allow_delete
  pub shares : a.allow_share ≡ b.allow_share
  pub keys : a.encrypt_key ≡ b.encrypt_key

-- The text that a permission's MAC is the hash of.
abbrev pub signed_text : Text → OdObjectPermission → Text
signed_text p x =
    mac_text p x.grantee x.allow_create x.allow_read x.allow_update x.allow_delete x.allow_share
      x.encrypt_key

SameGrant-of_text :
    (p : Text) (a b : OdObjectPermission)
    → IsBytes a.encrypt_key
    → IsBytes b.encrypt_key
    → a.grantee ≡ b.grantee
    → signed_text p a ≡ signed_text p b
    → SameGrant a b
SameGrant-of_text p a b ba bb g e =
    let same_grantee : mac_text p a.grantee b.allow_create b.allow_read b.allow_update
          b.allow_delete b.allow_share b.encrypt_key
        ≡ signed_text p b =
      rw g refl in
    let (c, r, u, d, s, k) =
      mac_text_inv p a.grantee a.allow_create a.allow_read a.allow_update a.allow_delete
        a.allow_share b.allow_create b.allow_read b.allow_update b.allow_delete b.allow_share
        a.encrypt_key b.encrypt_key (e ∙ sym same_grantee) in
    record {
      creates = c;
      reads = r;
      updates = u;
      deletes = d;
      shares = s;
      keys = hex_encode_inj a.encrypt_key b.encrypt_key ba bb k;
    }

-- Two permissions of one grantee that both pass the MAC check, with one MAC, grant the same
-- capabilities and hold the same wrapped key, unless the two texts that were hashed for them differ and
-- have one SHA-256: whoever alters the capabilities or the key of a stored permission so that it still passes
-- has found a second text with the hash of the first.
pub mac_binds :
    (H : Sha256) (p : Text) (a b : OdObjectPermission)
    → IsBytes a.encrypt_key
    → IsBytes b.encrypt_key
    → a.grantee ≡ b.grantee
    → equals_permission_mac H p a ≡ true
    → equals_permission_mac H p b ≡ true
    → a.permission_mac ≡ b.permission_mac
    → SameGrant a b
      ⊎ ((signed_text p a ≢ signed_text p b) × (H.sum (signed_text p a) ≡ H.sum (signed_text p b)))
unfolding equals_permission_mac calculate_permission_mac
mac_binds H p a b ba bb g va vb m =
    let ta = signed_text p a in
    let tb = signed_text p b in
    let hash : H.sum ta ≡ H.sum tb = text_eq_sound _ _ va ∙ m ∙ sym (text_eq_sound _ _ vb) in
    elim (Bool-cases (text_eq ta tb)) [
      | inl same ↦ inl (SameGrant-of_text p a b ba bb g (text_eq_sound ta tb same))
      | inr other ↦ inr ((λ e. false≢true (sym other ∙ (text_eq_iff ta tb).1 e)), hash)
    ]
