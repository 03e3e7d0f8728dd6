-- ===== src/Paging.antt =====
-- bot/app/utils/pagination.py: the page of a list that the bot shows, and the buttons under it. A
-- button is the offset that it leads to; its label and callback text are left out.
pub mod Walk
use algo_trading_broker.Prelude.{
  ℕ, zero, suc, ◌+◌, ◌-◌, ◌||◌, Bool, true, false, Option, none, some, List, [], ◌∷◌, ◌++◌, length,
  take, drop, ltb, leb, if◌then◌else◌,
}
use algo_trading_broker.Prelude.Ints.{ℤ, pos, negsuc}

pub record Page : Type 0 where
  pub total : ℕ
  pub limit : ℕ
  pub offset : ℕ

-- `max(1, limit)`.
abbrev pub at_least_one : ℤ → ℕ
at_least_one (pos zero) = 1
at_least_one (pos (suc n)) = suc n
at_least_one (negsuc n) = 1

-- An offset that is out of range becomes 0.
abbrev pub clamp : ℕ → ℤ → ℕ
clamp total (pos n) = if leb total n then 0 else n
clamp total (negsuc n) = 0

unfoldable pub paginate {ℓ} : {A : Type ℓ} → List A → ℤ → ℤ → List A × Page
paginate items limit offset =
    let n = at_least_one limit in
    let o = clamp (length items) offset in
    (take n (drop o items), record { total = length items; limit = n; offset = o })

pub data Button : Type 0 where
  prev next : ℕ → Button

-- `limit or 1`.
abbrev pub or_one : ℕ → ℕ
or_one zero = 1
or_one (suc n) = suc n

unfoldable pub build_pagination_row : Page → List Button
build_pagination_row page =
    let limit = or_one page.limit in
    let back = if ltb 0 page.offset then prev (page.offset - limit) ∷ [] else [] in
    let on = if ltb (page.offset + limit) page.total then next (page.offset + limit) ∷ [] else [] in
    back ++ on
