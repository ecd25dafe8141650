-- ===== src/MatchingService/Recovery.antt =====
-- services/matching-engine/main.go: what the engine starts with after a crash, LoadOpenOrders of
-- database/db.go and RestoreOrders. `is_less` is PostgreSQL's order of texts.
use mathlib.Core.List.{Memᴰ}
use mathlib.Core.List.Memᴰ
use mathlib.Core.Path.{subst}
use tradesphere.Base.{
  ◌≡◌, ◌⊎◌, refl, sym, ap, inl, inr, Bool, true, false, Bool-cases, not, ◌&&◌, ◌||◌, List, map, ltb,
  leb, ◌==◌, ok, arith,
}
use tradesphere.Int.{pos, ◌<ℤ◌, ltb_ℤ}
use tradesphere.Query.{select, order_by, select-Memᴰ, Memᴰ-select, order_by-Memᴰ}
use tradesphere.Text.{Text, codes, text_eq, text_eq→eq}
use tradesphere.Model.{Order, OrderStatus, new, partially_filled, filled, cancelled, other_status}
use tradesphere.Dict.{values}
use tradesphere.MatchingService.Database.{
  failed, Session, Tx, Host, normalize_order_status, scanned,
}
use tradesphere.Sql

-- status IN ('NEW', 'PARTIALLY_FILLED', 'OPEN', 'PARTIAL')
abbrev pub is_listed : OrderStatus → Bool
is_listed new = true
is_listed partially_filled = true
is_listed filled = false
is_listed cancelled = false
is_listed (other_status t) = text_eq t (codes "OPEN") || text_eq t (codes "PARTIAL")

abbrev pub is_wanted : Order → Bool
is_wanted row = ltb_ℤ (pos 0) row.remaining_quantity && is_listed row.status

listed_status :
    (s : OrderStatus)
    → is_listed s ≡ true
    → (normalize_order_status s ≡ new) ⊎ (normalize_order_status s ≡ partially_filled)
listed_status new h = inl refl
listed_status partially_filled h = inr refl
listed_status filled h = absurd (cc)
listed_status cancelled h = absurd (cc)
listed_status (other_status t) h = elim (Bool-cases (text_eq t (codes "PARTIAL"))) [
  | inl e ↦ inr (rw e refl)
  | inr e ↦
      let spelled : t ≡ codes "OPEN" = text_eq→eq t (codes "OPEN") (ground arith) in
      inl (ap (λ u. normalize_order_status (other_status u)) spelled)
]

pub scanned-IsOpen :
    (row : Order)
    → is_wanted row ≡ true
    → (pos 0 <ℤ row.remaining_quantity)
      × (((scanned row).status ≡ new) ⊎ ((scanned row).status ≡ partially_filled))
scanned-IsOpen row wanted = (ground arith, listed_status row.status (ground arith))

module _ (is_less : Text → Text → Bool) where
  -- ORDER BY symbol ASC, created_at ASC, id ASC
  abbrev pub comes_first : Order → Order → Bool
  comes_first a b =
      is_less a.symbol b.symbol
      || (not (is_less b.symbol a.symbol)
          && (ltb a.created_at b.created_at || ((a.created_at == b.created_at) && leb a.id b.id)))

  -- LoadOpenOrders
  unfoldable pub load_open_orders : Host → Tx (List Order)
  load_open_orders h =
      Sql.query failed h.faults
        (λ db. ok (map scanned (order_by comes_first (select is_wanted (values db.orders)))))

  -- If LoadOpenOrders succeeds, then it returns exactly the rows with a quantity remaining and one of
  -- the four statuses, as limit orders; and each order that it returns is new or partially filled
  -- and has a quantity remaining, whichever spelling of the status its row has.
  pub load_open_orders-ok :
      (h : Host) (s : Session) (os : List Order)
      → (load_open_orders h s).0 ≡ ok os
      → ((row : Order)
          → Memᴰ row (values s.db.orders)
          → is_wanted row ≡ true
          → Memᴰ (scanned row) os)
        × ((o : Order)
            → Memᴰ o os
            → ((row : Order) × Memᴰ row (values s.db.orders)
                × (is_wanted row ≡ true)
                × (scanned row ≡ o))
              × (pos 0 <ℤ o.remaining_quantity)
              × ((o.status ≡ new) ⊎ (o.status ≡ partially_filled)))
  unfolding load_open_orders
  load_open_orders-ok h s os done =
      let rows = values s.db.orders in
      let sorted = order_by comes_first (select is_wanted rows) in
      let result : map scanned sorted ≡ os = ground arith in
      (
        λ row m wanted.
            subst (λ l. Memᴰ (scanned row) l) result
              (Memᴰ.map scanned (
                (order_by-Memᴰ comes_first (select is_wanted rows) row).1
                  (Memᴰ-select is_wanted rows row m wanted))),
        λ o m.
            let (row, m', e) = Memᴰ.of_map scanned sorted (subst (λ l. Memᴰ o l) (sym result) m) in
            let (inside, wanted) =
              select-Memᴰ is_wanted rows row
                ((order_by-Memᴰ comes_first (select is_wanted rows) row).0 m') in
            let (left, status) = scanned-IsOpen row wanted in
            (
              (row, inside, wanted, e),
              subst (λ (x : Order). pos 0 <ℤ x.remaining_quantity) e left,
              subst (λ (x : Order). (x.status ≡ new) ⊎ (x.status ≡ partially_filled)) e status,
            ),
      )
