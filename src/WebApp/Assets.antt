-- ===== src/WebApp/Assets.antt =====
-- `find_asset`: the asset of a path, if there is one.
use esp_nmea_bridge_zephyr.Base.{
  ℕ, suc, ◌≡◌, ◌≢◌, refl, ap, sym, ◌∙◌, Bool, true, false, ◌&&◌, Option, none, some, List, [], ◌∷◌,
  ◌++◌, arith, ◌==◌, length, All, inl, inr, Bool-cases, get_elem?,
}
use esp_nmea_bridge_zephyr.Text.{Bytes, strncmp_equal}
use esp_nmea_bridge_zephyr.Text.Compare.{strncmp_whole, strncmp-append}
use esp_nmea_bridge_zephyr.WebApp.{WebAsset, find_asset}

-- The test of `find_asset` and of `handle_client` on a path and what follows it.
unfoldable pub is_path : Bytes → Bytes → Bytes → Bool
is_path p s a = (length a == length p) && strncmp_equal (p ++ s) a (length p)

pub is_path-eq : (p s a : Bytes) → is_path p s a ≡ true → p ≡ a
unfolding is_path
is_path-eq p s a h =
    let e : length a ≡ length p = ground arith in strncmp_whole p a s e (ground arith)

pub is_path_self : (p s : Bytes) → is_path p s p ≡ true
unfolding is_path
is_path_self p s = ground (arith, strncmp-append p s)

pub is_path-ne : (p s a : Bytes) → is_path p s a ≡ false → p ≢ a
is_path-ne p s a h e =
    let hit : is_path p s a ≡ true = ap (λ t. is_path p s t) (sym e) ∙ is_path_self p s in cc

-- The asset found is the first of that path; if none is found, no asset has it.
unfoldable pub Serves : List WebAsset → Bytes → Option WebAsset → Type 0
Serves l p none = All (λ a. p ≢ a.path) l
Serves l p (some a) = (i : ℕ) × (get_elem? l i ≡ some a) × (p ≡ a.path)

first-Serves :
    (a : WebAsset) (l : List WebAsset) (p s : Bytes)
    → is_path p s a.path ≡ true
    → Serves (a ∷ l) p (find_asset (a ∷ l) (p ++ s) (length p))
unfolding Serves find_asset is_path
first-Serves a l p s hit = rw hit (0, refl, is_path-eq p s a.path hit)

later-Serves :
    (a : WebAsset) (l : List WebAsset) (p s : Bytes)
    → is_path p s a.path ≡ false
    → Serves (a ∷ l) p (find_asset l (p ++ s) (length p))
    → Serves (a ∷ l) p (find_asset (a ∷ l) (p ++ s) (length p))
unfolding find_asset is_path
later-Serves a l p s other h = rw other h

next-Serves :
    (a : WebAsset) (l : List WebAsset) (p : Bytes) (found : Option WebAsset)
    → p ≢ a.path
    → Serves l p found
    → Serves (a ∷ l) p found
unfolding Serves
next-Serves a l p none other h = (other, h)
next-Serves a l p (some b) other (i, at, e) = (suc i, at, e)

pub find_asset-Serves :
    (l : List WebAsset) (p s : Bytes) → Serves l p (find_asset l (p ++ s) (length p))
unfolding Serves find_asset
find_asset-Serves [] p s = tt
find_asset-Serves (a ∷ l) p s = elim (Bool-cases (is_path p s a.path)) [
  | inl hit ↦ first-Serves a l p s hit
  | inr other ↦
      let stop = is_path-ne p s a.path other in
      later-Serves a l p s other (next-Serves a l p _ stop (find_asset-Serves l p s))
]
