-- ===== src/Paginate.antt =====
-- pkg/paginate/paginate.go: the parameters of a page of results. The numbers are uint64.
pub mod Query
pub mod Asked
pub mod Conditions
pub mod Bound
use shahboard.Base.{ℕ, Bool, List, ltb, ◌==◌, if◌then◌else◌}
use shahboard.Types.{Bytes}

abbrev default_min_page_size : ℕ
default_min_page_size = 10

abbrev default_max_page_size : ℕ
default_max_page_size = 100

-- `FilterOperator`; `other` stands for the integers that no constant names.
pub data FilterOperator : Type 0 where
  equal not_equal greater greater_equal less less_equal is_in not_in between other : FilterOperator

-- A value of type `interface{}` that a query is given.
pub data Value : Type 0 where
  text : Bytes → Value
  number : ℕ → Value

pub record Filter : Type 0 where
  pub operator : FilterOperator
  pub values : List Value

-- The filters are a map; the order of the list is that in which a `range` loop meets them.
pub record Paginated : Type 0 where
  pub page : ℕ
  pub per_page : ℕ
  pub total : ℕ
  pub filters : List (Bytes × Filter)
  pub sort_column : Bytes
  pub descending : Bool

-- `Paginated.Validate`, which returns no error.
unfoldable pub validate : Paginated → Paginated
validate p =
    let page = if p.page == 0 then 1 else p.page in
    let at_least =
      if ltb p.per_page default_min_page_size then default_min_page_size else p.per_page in
    let at_most = if ltb default_max_page_size at_least then default_max_page_size else at_least in
    record p { page = page; per_page = at_most }
