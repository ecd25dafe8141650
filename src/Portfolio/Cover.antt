-- ===== src/Portfolio/Cover.antt =====
-- services/portfolio-service/main.go: reserved amounts against what is there, in reserveHandler.
use tradesphere.Base.{
  ℕ, ◌≡◌, Bool, true, false, ◌||◌, inl, inr, Bool-cases, Option, none, some, if◌then◌else◌, Result,
  ok, err, arith,
}
use tradesphere.Int.{ℤ, pos, ◌+ℤ◌, ◌≤ℤ◌, ltb_ℤ, sub64, sub64_exact, max_int64, +ℤ_parts, -ℤ_parts}
use tradesphere.Text.{Text, codes, trim_space, text_eq, text_eq→eq}
use tradesphere.Portfolio.Database.{User, Position, Db, Session, Act, ticked}
use tradesphere.Portfolio.Handlers.{
  Refusal, user_not_found, position_not_found, reservation_commit_failed, ReserveRequest, close,
  in_handler, reserve_balance, reserve_quantity, with_id, reserve_buy, reserve_sell, by_side,
  reserve_handler,
}

-- `reserved` is covered by `total`, both as the columns hold them.
abbrev pub Covers : ℤ → ℤ → Type 0
Covers total reserved = (pos 0 ≤ℤ reserved) × (reserved ≤ℤ total) × (total ≤ℤ max_int64)

abbrev pub UserCovered : Option User → Type 0
UserCovered none = Unit {0}
UserCovered (some u) = Covers u.balance u.reserved_balance

abbrev pub PositionCovered : Option Position → Type 0
PositionCovered none = Unit {0}
PositionCovered (some p) = Covers p.quantity p.reserved_quantity

-- Every user's reserved balance is covered by the balance, and every position's reserved quantity
-- by its quantity.
abbrev pub IsCovered : Db → Type 0
IsCovered db =
    ((id : ℕ) → UserCovered (db.users id))
    × ((id : ℕ) (symbol : Text) → PositionCovered (db.positions id symbol))

pub sub64_covered :
    (total reserved amount : ℤ)
    → Covers total reserved
    → ltb_ℤ (sub64 total reserved) amount ≡ false
    → reserved +ℤ amount ≤ℤ total
sub64_covered total reserved amount c h =
    let exact = sub64_exact total reserved (ground (arith, -ℤ_parts total reserved)) in
    let h' = rw (exact) at h in
    ground (arith, h', -ℤ_parts total reserved, +ℤ_parts reserved amount)

module _ (faults : ℕ → Bool) where
  reserve_buy-users :
      (id : ℕ) (req : ReserveRequest) (s : Session) (j : ℕ)
      → UserCovered (s.db.users id)
      → UserCovered (s.db.users j)
      → UserCovered ((reserve_buy faults id req s).1.db.users j)
  unfolding reserve_buy reserve_balance
  reserve_buy-users id req s j c d = grind (arith, sub64_covered)

  reserve_buy-positions :
      (id : ℕ) (req : ReserveRequest) (s : Session)
      → (reserve_buy faults id req s).1.db.positions ≡ s.db.positions
  unfolding reserve_buy reserve_balance
  reserve_buy-positions id req s = ground arith

  reserve_sell-positions :
      (id : ℕ) (req : ReserveRequest) (s : Session) (j : ℕ) (t : Text)
      → PositionCovered (s.db.positions id req.symbol)
      → PositionCovered (s.db.positions j t)
      → PositionCovered ((reserve_sell faults id req s).1.db.positions j t)
  unfolding reserve_sell reserve_quantity
  reserve_sell-positions id req s j t c d = grind (arith, sub64_covered, text_eq→eq)

  reserve_sell-users :
      (id : ℕ) (req : ReserveRequest) (s : Session)
      → (reserve_sell faults id req s).1.db.users ≡ s.db.users
  unfolding reserve_sell reserve_quantity
  reserve_sell-users id req s = ground arith

-- The code keeps a property of the tables, however it ends.
abbrev pub Keeps : (Db → Type 0) → Act Refusal (Unit {0}) → Type 0
Keeps I m = (s : Session) → I s.db → I (m s).1.db

module _ (I : Db → Type 0) (faults : ℕ → Bool) where
  close_keeps :
      (refusal : Refusal) (before : Db) (r : Result Refusal (Unit {0})) (s : Session)
      → I before
      → I s.db
      → I (close faults refusal before (r, s)).1.db
  close_keeps refusal before (err e) s i j = i
  close_keeps refusal before (ok u) s i j = elim (Bool-cases (faults s.calls)) [
    | inl t ↦ rw (t) i
    | inr f ↦ rw (f) j
  ]

  in_handler-Keeps :
      (refusal : Refusal) (m : Act Refusal (Unit {0}))
      → Keeps I m
      → Keeps I (in_handler faults refusal m)
  unfolding in_handler
  in_handler-Keeps refusal m k s i = elim (Bool-cases (faults s.calls)) [
    | inl t ↦ rw (t) i
    | inr f ↦ rw (f) (close_keeps refusal s.db (m (ticked s)).0 (m (ticked s)).1 i (k (ticked s) i))
  ]

  with_id-Keeps :
      (refusal : Refusal) (f : ℕ → Act Refusal (Unit {0})) (id : Option ℕ)
      → ((n : ℕ) → Keeps I (f n))
      → Keeps I (with_id refusal f id)
  with_id-Keeps refusal f none k s i = i
  with_id-Keeps refusal f (some n) k s i = k n s i

  if_Keeps :
      (b : Bool) (m k : Act Refusal (Unit {0}))
      → Keeps I m
      → Keeps I k
      → Keeps I (if b then m else k)
  if_Keeps true m k keeps_m keeps_k = keeps_m
  if_Keeps false m k keeps_m keeps_k = keeps_k

  -- A handler keeps what both its branches keep.
  pub by_side-Keeps :
      (to_upper : Text → Text) (parse_uuid : Text → Option ℕ) (refusal : Refusal)
      (buy sell : ℕ → ReserveRequest → Act Refusal (Unit {0}))
      → ((id : ℕ) (req : ReserveRequest) → Keeps I (buy id req))
      → ((id : ℕ) (req : ReserveRequest) → Keeps I (sell id req))
      → (post : Bool) (body : Option ReserveRequest)
      → Keeps I (by_side faults to_upper parse_uuid refusal buy sell post body)
  unfolding by_side
  by_side-Keeps to_upper parse_uuid refusal buy sell kb ks false body s i = i
  by_side-Keeps to_upper parse_uuid refusal buy sell kb ks true none s i = i
  by_side-Keeps to_upper parse_uuid refusal buy sell kb ks true (some req) s i =
      let side = to_upper (trim_space req.side) in
      let buying = text_eq side (codes "BUY") in
      let missing = if buying then user_not_found else position_not_found in
      elim (Bool-cases (buying || text_eq side (codes "SELL"))) [
        | inr other ↦ rw (other) i
        | inl known ↦ rw (known) (
            in_handler-Keeps refusal _
              (with_id-Keeps missing _ (parse_uuid req.user_id)
                (λ id. if_Keeps buying (buy id req) (sell id req) (kb id req) (ks id req)))
              s i)
      ]

module _ (faults : ℕ → Bool) (to_upper : Text → Text) (parse_uuid : Text → Option ℕ) where
  -- If every reserved balance and every reserved quantity is between zero and what is there, then
  -- so it is after any call of reserveHandler, whatever its request is and wherever it fails.
  pub reserve_handler-IsCovered :
      (post : Bool) (body : Option ReserveRequest) (s : Session)
      → IsCovered s.db
      → IsCovered (reserve_handler faults to_upper parse_uuid post body s).1.db
  unfolding reserve_handler
  reserve_handler-IsCovered =
      by_side-Keeps IsCovered faults to_upper parse_uuid reservation_commit_failed
        (reserve_buy faults) (reserve_sell faults)
        (λ id req s c. (
          λ j. reserve_buy-users faults id req s j (c.0 id) (c.0 j),
          λ j t. rw (reserve_buy-positions faults id req s) (c.1 j t),
        ))
        (λ id req s c. (
          λ j. rw (reserve_sell-users faults id req s) (c.0 j),
          λ j t. reserve_sell-positions faults id req s j t (c.1 id req.symbol) (c.1 j t),
        ))
