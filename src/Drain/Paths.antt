-- ===== src/Drain/Paths.antt =====
-- The paths of a cached file's states (ciphertext/local.go): that they do not meet, and what lookups
-- find after the file operations.
use ods.Common.{
  true, false, none, some, [], ◌∷◌, ◌++◌, Text, codes, text_eq, text_eq_sound, text_eq_self, ◌≡◌,
  refl, sym, ap, ◌∙◌, arith, subst, Bool-cases, inl, inr,
}
use mathlib.Core.List.{reverse-append, append_cancel_left, append_cancel_right}
use ods.Cache.{Disk, FileInfo, System, lookup, ext}
use ods.Drain.{cleared, place, rename, unlink, resolve, uploaded_path, cached_path, caching_path}

pub other_of_ext : (s t : Text) → text_eq (ext s) (ext t) ≡ false → text_eq s t ≡ false
other_of_ext s t h = elim (Bool-cases (text_eq s t)) [
  | inr other ↦ other
  | inl same ↦
      let e : text_eq (ext s) (ext t) ≡ true =
        ap (λ u. text_eq (ext s) (ext u)) (sym (text_eq_sound s t same)) ∙ text_eq_self (ext s) in
      cc
]

pub ext-uploaded : (s : Text) → ext (s ++ codes ".uploaded") ≡ codes ".uploaded"
unfolding ext
ext-uploaded s = rw (reverse-append s (codes ".uploaded")) refl

pub ext-cached : (s : Text) → ext (s ++ codes ".cached") ≡ codes ".cached"
unfolding ext
ext-cached s = rw (reverse-append s (codes ".cached")) refl

pub ext-caching : (s : Text) → ext (s ++ codes ".caching") ≡ codes ".caching"
unfolding ext
ext-caching s = rw (reverse-append s (codes ".caching")) refl

pub ext-uploading : (s : Text) → ext (s ++ codes ".uploading") ≡ codes ".uploading"
unfolding ext
ext-uploading s = rw (reverse-append s (codes ".uploading")) refl

pub resolve_injective :
    (location m n state : Text)
    → text_eq m n ≡ false
    → text_eq (resolve location m state) (resolve location n state) ≡ false
unfolding resolve
resolve_injective location m n state h =
    elim (Bool-cases (text_eq (resolve location m state) (resolve location n state))) [
      | inr other ↦ other
      | inl same ↦
          let e : m ≡ n = append_cancel_left (codes "/") m n (
            append_cancel_left location (codes "/" ++ m) (codes "/" ++ n) (
              append_cancel_right (location ++ (codes "/" ++ m)) (location ++ (codes "/" ++ n))
                state (text_eq_sound _ _ same))) in
          let self : text_eq m n ≡ true = ap (text_eq m) (sym e) ∙ text_eq_self m in cc
    ]

pub cached_not_uploaded :
    (location m n : Text) → text_eq (cached_path location m) (uploaded_path location n) ≡ false
unfolding resolve text_eq
cached_not_uploaded location m n =
    other_of_ext (cached_path location m) (uploaded_path location n) (
      rw (ext-cached (location ++ (codes "/" ++ m)), ext-uploaded (location ++ (codes "/" ++ n)))
        refl)

pub caching_not_uploaded :
    (location m n : Text) → text_eq (caching_path location m) (uploaded_path location n) ≡ false
unfolding resolve text_eq
caching_not_uploaded location m n =
    other_of_ext (caching_path location m) (uploaded_path location n) (
      rw (ext-caching (location ++ (codes "/" ++ m)), ext-uploaded (location ++ (codes "/" ++ n)))
        refl)

pub caching_not_cached :
    (location m n : Text) → text_eq (caching_path location m) (cached_path location n) ≡ false
unfolding resolve text_eq
caching_not_cached location m n = other_of_ext (caching_path location m) (cached_path location n) (
    rw (ext-caching (location ++ (codes "/" ++ m)), ext-cached (location ++ (codes "/" ++ n))) refl)

pub uploading_not_uploaded :
    (location m n : Text)
    → text_eq (resolve location m (codes ".uploading")) (uploaded_path location n) ≡ false
unfolding resolve text_eq
uploading_not_uploaded location m n =
    other_of_ext (resolve location m (codes ".uploading")) (uploaded_path location n) (
      rw (ext-uploading (location ++ (codes "/" ++ m)), ext-uploaded (location ++ (codes "/" ++ n)))
        refl)

pub lookup_name :
    (n : Text) (disk : Disk) (f : FileInfo) → lookup n disk ≡ some f → text_eq f.name n ≡ true
unfolding lookup
lookup_name n [] f h = cc
lookup_name n (g ∷ disk) f h = elim (Bool-cases (text_eq g.name n)) [
  | inl same ↦ let e : g ≡ f = grind arith in ap (λ f. text_eq f.name n) (sym e) ∙ same
  | inr other ↦ lookup_name n disk f (ground arith)
]

other_name : (a m n : Text) → text_eq a m ≡ true → text_eq m n ≡ false → text_eq a n ≡ false
other_name a m n h k = rw (text_eq_sound a m h) k

pub lookup-cleared_other :
    (m n : Text) (disk : Disk) → text_eq m n ≡ false → lookup n (cleared m disk) ≡ lookup n disk
unfolding lookup cleared
lookup-cleared_other m n [] h = refl
lookup-cleared_other m n (f ∷ disk) h =
    ground (arith, lookup-cleared_other m n disk h, other_name f.name m n)

pub lookup-cleared_same : (n : Text) (disk : Disk) → lookup n (cleared n disk) ≡ none
unfolding lookup cleared
lookup-cleared_same n [] = refl
lookup-cleared_same n (f ∷ disk) = ground (arith, lookup-cleared_same n disk)

pub lookup-place_other :
    (f : FileInfo) (n : Text) (disk : Disk)
    → text_eq f.name n ≡ false
    → lookup n (place f disk) ≡ lookup n disk
unfolding lookup place
lookup-place_other f n disk h = rw h (lookup-cleared_other f.name n disk h)

pub lookup-place_same :
    (f : FileInfo) (n : Text) (disk : Disk)
    → text_eq f.name n ≡ true
    → lookup n (place f disk) ≡ some f
unfolding lookup place
lookup-place_same f n disk h = rw h refl

pub lookup-rename_other :
    (f : FileInfo) (m n : Text) (disk : Disk)
    → text_eq f.name n ≡ false
    → text_eq m n ≡ false
    → lookup n (rename f m disk) ≡ lookup n disk
unfolding rename
lookup-rename_other f m n disk h k =
    lookup-place_other (record f { name = m }) n (cleared f.name disk) k
    ∙ lookup-cleared_other f.name n disk h

pub lookup-rename_same :
    (f : FileInfo) (m : Text) (disk : Disk)
    → lookup m (rename f m disk) ≡ some (record f { name = m })
unfolding rename
lookup-rename_same f m disk =
    lookup-place_same (record f { name = m }) m (cleared f.name disk) (text_eq_self m)

pub lookup-unlink_other :
    (sys : System) (m n : Text) (disk : Disk)
    → text_eq m n ≡ false
    → lookup n (unlink sys m disk) ≡ lookup n disk
unfolding unlink
lookup-unlink_other sys m n disk h = ground (arith, lookup-cleared_other m n disk h)

-- A file that is renamed is gone from where it was.
pub lookup-rename_gone :
    (f : FileInfo) (m n : Text) (disk : Disk)
    → text_eq f.name n ≡ true
    → text_eq m n ≡ false
    → lookup n (rename f m disk) ≡ none
unfolding rename
lookup-rename_gone f m n disk h k =
    lookup-place_other (record f { name = m }) n (cleared f.name disk) k
    ∙ subst (λ x. lookup n (cleared x disk) ≡ none) (sym (text_eq_sound f.name n h))
        (lookup-cleared_same n disk)
