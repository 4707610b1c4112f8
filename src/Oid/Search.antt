-- ===== src/Oid/Search.antt =====
-- Go's `sort.Search` finds the border of a predicate that does not fall back.
use cc_deb_pkg.Prelude.{ℕ, zero, suc, ◌+◌, ◌/◌, ◌≤◌, ◌<◌, ◌≡◌, Bool, true, false, arith}
use cc_deb_pkg.Oid.{sort_search}

-- The predicate is false below `k` and true from `k` up to `n`.
pub record IsBorder (f : ℕ → Bool) (k n : ℕ) : Type 0 where
  pub below : (i : ℕ) → i < k → f i ≡ false
  pub above : (i : ℕ) → k ≤ i → i < n → f i ≡ true

-- If `f` is false below `k` and true from `k` on, up to `n`, `k` is between `lo` and `hi`, `hi` is at
-- most `n`, and the fuel is at least `hi - lo`, then the search from `lo` to `hi` returns `k`.
pub sort_search-IsBorder :
    (fuel : ℕ) (f : ℕ → Bool) (lo hi k n : ℕ)
    → IsBorder f k n
    → lo ≤ k
    → k ≤ hi
    → hi ≤ n
    → hi ≤ lo + fuel
    → sort_search fuel f lo hi ≡ k
unfolding sort_search
sort_search-IsBorder zero f lo hi k n b l h m e = omega arith
sort_search-IsBorder (suc fuel) f lo hi k n b l h m e =
    let mid = (lo + hi) / 2 in
    ground (
      arith,
      b.below mid,
      b.above mid,
      sort_search-IsBorder fuel f (mid + 1) hi k n b,
      sort_search-IsBorder fuel f lo mid k n b,
    )
