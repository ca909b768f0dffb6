-- ===== src/ArrayBook/Located.antt =====
-- src/orderbooks/array_order_book.hpp: the lookup of an array book, with prices in place of indices.
use hft_orderbook_benchmark.Common.{
  ℕ, ◌≡◌, refl, Bool, true, false, Option, none, some, if◌then◌else◌, ◌==◌,
}
use hft_orderbook_benchmark.Containers.Index
use hft_orderbook_benchmark.Containers.Index.{Index, is_some}
use hft_orderbook_benchmark.Matching.{Location}
use hft_orderbook_benchmark.ArrayBook.{ArrayLocation}
use hft_orderbook_benchmark.ArrayBook.View.{locate, locate_some, located}

Index_path :
    (f g : ℕ → Option Location) (m n : ℕ)
    → ((j : ℕ) → f j ≡ g j)
    → m ≡ n
    → ◌≡◌ {A = Index Location} (record { find = f; size = m }) (record { find = g; size = n })
Index_path f g m n h e = λ i. record { find = λ j. h j i; size = e i }

module _ (p t : ℕ) where
  locate_some-if :
      (c : Bool) (x y : Option ArrayLocation)
      → locate_some p t (if c then x else y) ≡ (if c then locate_some p t x else locate_some p t y)
  locate_some-if true x y = refl
  locate_some-if false x y = refl

  is_some-locate_some : (x : Option ArrayLocation) → is_some (locate_some p t x) ≡ is_some x
  is_some-locate_some none = refl
  is_some-locate_some (some l) = refl

  pub located-insert :
      (id : ℕ) (l : ArrayLocation) (ix : Index ArrayLocation)
      → located p t (Index.insert id l ix) ≡ Index.insert id (locate p t l) (located p t ix)
  unfolding Index.insert
  located-insert id l ix =
      Index_path _ _ _ _ (λ j. locate_some-if (j == id) (some l) (ix.find j))
        (rw (is_some-locate_some (ix.find id)) refl)

  pub located-erase :
      (id : ℕ) (ix : Index ArrayLocation)
      → located p t (Index.erase id ix) ≡ Index.erase id (located p t ix)
  unfolding Index.erase
  located-erase id ix =
      Index_path _ _ _ _ (λ j. locate_some-if (j == id) none (ix.find j))
        (rw (is_some-locate_some (ix.find id)) refl)
