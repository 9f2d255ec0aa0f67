-- ===== src/Gallery/Members.antt =====
-- Membership in a list of files, as the code tests it.
use hath_rust.Prelude.{
  ◌≡◌, ◌⊎◌, inl, inr, refl, sym, ap, ◌∙◌, Bool, true, false, ◌||◌, List, [], ◌∷◌, Option, none,
  some, Bytes, bytes_eq_refl, ==_refl, All,
}
use hath_rust.Gallery.{GalleryFile}
use hath_rust.Gallery.Fetch.{hash_eq, file_eq, contains}

hash_eq_refl : (h : Option Bytes) → hash_eq h h ≡ true
hash_eq_refl none = refl
hash_eq_refl (some h) = bytes_eq_refl h

file_eq_refl : (f : GalleryFile) → file_eq f f ≡ true
unfolding file_eq
file_eq_refl f =
    rw
      (
        ==_refl f.page,
        ==_refl f.fileindex,
        bytes_eq_refl f.xres,
        hash_eq_refl f.expected_sha1_hash,
        bytes_eq_refl f.filetype,
        bytes_eq_refl f.filename,
      )
      refl

-- The file is in the list.
abbrev pub IsIn : GalleryFile → List GalleryFile → Type 0
IsIn f [] = ⊥
IsIn f (g ∷ gs) = (f ≡ g) ⊎ IsIn f gs

pub IsIn-contains : (f : GalleryFile) (gs : List GalleryFile) → IsIn f gs → contains f gs ≡ true
unfolding contains
IsIn-contains f [] i = absurd i
IsIn-contains f (g ∷ gs) (inl e) = rw (sym (ap (file_eq f) e) ∙ file_eq_refl f) refl
IsIn-contains f (g ∷ gs) (inr i) = rw (IsIn-contains f gs i) (or_true (file_eq f g))
  where
    or_true : (b : Bool) → (b || true) ≡ true
    or_true true = refl
    or_true false = refl

All-map :
    {P Q : GalleryFile → Type 0} (fs : List GalleryFile)
    → ((f : GalleryFile) → P f → Q f)
    → All P fs
    → All Q fs
All-map [] k a = tt
All-map (f ∷ fs) k a = (k f a.0, All-map fs k a.1)

pub every-IsIn : (fs : List GalleryFile) → All (λ f. IsIn f fs) fs
every-IsIn [] = tt
every-IsIn (f ∷ fs) = (inl refl, All-map fs (λ g h. inr h) (every-IsIn fs))
