-- ===== src/Finance/Inventory/Stock.antt =====
-- The stock of each item (web-server/src/finance/inventory/inventory.service.ts).
use multi_academy_backend.Prelude.{
  ℕ, ◌+◌, ◌≤◌, String, ◌≡◌, inl, inr, refl, true, false, not, ◌&&◌, Option, none, some, arith, ◌==◌,
  if◌then◌else◌, find_first, sum_of, sum_of-append, Bool-cases, Option-cases, eq_iff, all, includes,
}
use multi_academy_backend.Prelude.Int.{ℤ, pos, ◌+ℤ◌, ◌-ℤ◌, ltb_ℤ, pos_part, neg_part}
use multi_academy_backend.Prelude.Keyed.{keyed-update}
use multi_academy_backend.Tenant.{Environment, enter, get_user_roles, has_any_role}
use multi_academy_backend.Finance.Inventory.{
  Item, Movement, InventoryDb, MovementBody, is_item, valid_qty, delta, move, apply_movement,
  move_stock, record_movement, allowed_roles, writing_roles,
}

-- The stock of the item of a key; where there is no item, 0.
abbrev pub stock_of : Option Item → ℤ
stock_of none = pos 0
stock_of (some i) = i.qty_on_hand

abbrev pub stock : String → InventoryDb → ℤ
stock id db = stock_of (find_first (is_item id) db.items)

-- What a movement of the given direction moved of an item.
abbrev pub moved : String → String → Movement → ℕ
moved direction id m =
    if m.item_id == id then (if m.direction == direction then pos_part m.qty else 0) else 0

abbrev pub ins : String → InventoryDb → ℕ
ins id db = sum_of (moved "in" id) db.movements

abbrev pub outs : String → InventoryDb → ℕ
outs id db = sum_of (moved "out" id) db.movements

-- No stock is negative, and what came in and went out since `start` accounts for the stock.
pub record IsAccounted (start db : InventoryDb) : Type 0 where
  pub not_negative : (id : String) → neg_part (stock id db) ≡ 0
  pub accounts :
      (id : String)
      → pos_part (stock id db) + outs id db + ins id start
        ≡ pos_part (stock id start) + ins id db + outs id start

-- A movement in, or a movement out that the stock covers.
data IsCovered (db : InventoryDb) (body : MovementBody) (qty : ℕ) : Type 0 where
  comes_in : body.direction ≡ "in" → IsCovered db body qty
  goes_out : body.direction ≡ "out" → qty ≤ pos_part (stock body.item_id db) → IsCovered db body qty

stock_in :
    (s : ℤ) (qty : ℕ)
    → neg_part s ≡ 0
    → (pos_part (s +ℤ pos qty) ≡ pos_part s + qty) × (neg_part (s +ℤ pos qty) ≡ 0)
unfolding ◌+ℤ◌
stock_in s qty h = ground arith

stock_out :
    (s : ℤ) (qty : ℕ)
    → neg_part s ≡ 0
    → qty ≤ pos_part s
    → (pos_part (s +ℤ (pos 0 -ℤ pos qty)) + qty ≡ pos_part s)
      × (neg_part (s +ℤ (pos 0 -ℤ pos qty)) ≡ 0)
unfolding ◌+ℤ◌ ◌-ℤ◌
stock_out s qty h k = ground arith

-- What a movement does to the stock and to the two sums of an item.
module _ (env : Environment) (tenant_id : String) (id user_id : String) (body : MovementBody)
    (qty : ℕ) (db : InventoryDb) (i : Item)
    (found : find_first (is_item body.item_id) db.items ≡ some i) (j : String) where
  abbrev after : InventoryDb
  after = apply_movement env tenant_id id user_id body qty db

  stock_other : body.item_id == j ≡ false → stock j after ≡ stock j db
  stock_other other =
      let changed =
        keyed-update Item.id (move (delta body.direction qty)) body.item_id j db.items
          (λ x. refl) in
      rw (changed, other) refl

  stock_same : body.item_id == j ≡ true → stock j after ≡ stock j db +ℤ delta body.direction qty
  stock_same this =
      let changed =
        keyed-update Item.id (move (delta body.direction qty)) body.item_id j db.items
          (λ x. refl) in
      let e : body.item_id ≡ j = (eq_iff body.item_id j).0 this in
      let found_j : find_first (is_item j) db.items ≡ some i = rw e at found in
      rw (changed, this, found_j) refl

  total :
      (direction : String)
      → sum_of (moved direction j) after.movements
        ≡ sum_of (moved direction j) db.movements
          + (if body.item_id == j then (if body.direction == direction then qty else 0) else 0)
  total direction = rw (sum_of-append (moved direction j) db.movements) (omega arith)

module _ (env : Environment) (tenant_id : String) where
  apply_movement-IsAccounted :
      (id user_id : String) (body : MovementBody) (qty : ℕ) (start db : InventoryDb) (i : Item)
      → IsAccounted start db
      → find_first (is_item body.item_id) db.items ≡ some i
      → IsCovered db body qty
      → IsAccounted start (apply_movement env tenant_id id user_id body qty db)
  apply_movement-IsAccounted id user_id body qty start db i h found covered = record {
    not_negative = λ j. (both j covered).0;
    accounts = λ j. (both j covered).1;
  }
    where
      both :
          (j : String)
          → IsCovered db body qty
          → (neg_part (stock j (apply_movement env tenant_id id user_id body qty db)) ≡ 0)
            × (pos_part (stock j (apply_movement env tenant_id id user_id body qty db))
                  + outs j (apply_movement env tenant_id id user_id body qty db)
                  + ins j start
                ≡ pos_part (stock j start)
                  + ins j (apply_movement env tenant_id id user_id body qty db)
                  + outs j start)
      both j c = elim (Bool-cases (body.item_id == j)) [
        | inr other ↦
            let kept = stock_other env tenant_id id user_id body qty db i found j other in
            let came = total env tenant_id id user_id body qty db i found j "in" in
            let went = total env tenant_id id user_id body qty db i found j "out" in
            rw (kept, came, went, other) (h.not_negative j, omega (arith, h.accounts j))
        | inl this ↦
            let kept = stock_same env tenant_id id user_id body qty db i found j this in
            let came = total env tenant_id id user_id body qty db i found j "in" in
            let went = total env tenant_id id user_id body qty db i found j "out" in
            elim c [
              | comes_in e ↦
                  let (up, sign) = stock_in (stock j db) qty (h.not_negative j) in
                  rw (kept, came, went, this, e) (sign, omega (arith, up, h.accounts j))
              | goes_out e enough ↦
                  let same : body.item_id ≡ j = (eq_iff body.item_id j).0 this in
                  let covers : qty ≤ pos_part (stock j db) = rw same at enough in
                  let (down, sign) = stock_out (stock j db) qty (h.not_negative j) covers in
                  rw (kept, came, went, this, e) (sign, omega (arith, down, h.accounts j))
            ]
      ]

  -- The movement that the guards let through is covered.
  move_stock-IsAccounted :
      (id user_id : String) (body : MovementBody) (start db : InventoryDb)
      → IsAccounted start db
      → IsAccounted start (move_stock env tenant_id id user_id body db).1
  move_stock-IsAccounted id user_id body start db h =
      elim (Option-cases (valid_qty body.direction body.qty)) [
        | inl invalid ↦ rw invalid h
        | inr (qty, valid) ↦ elim (Option-cases (find_first (is_item body.item_id) db.items)) [
          | inl missing ↦ rw (valid, missing) h
          | inr (i, found) ↦
              elim (Bool-cases (body.direction == "out" && ltb_ℤ i.qty_on_hand (pos qty))) [
                | inl short ↦ rw (valid, found, short) h
                | inr enough ↦
                    rw (valid, found, enough)
                      (apply_movement-IsAccounted id user_id body qty start db i h found
                        (covered qty i valid found enough))
              ]
        ]
      ]
    where
      covered :
          (qty : ℕ) (i : Item)
          → valid_qty body.direction body.qty ≡ some qty
          → find_first (is_item body.item_id) db.items ≡ some i
          → (body.direction == "out" && ltb_ℤ i.qty_on_hand (pos qty)) ≡ false
          → IsCovered db body qty
      covered qty i valid found enough = elim (Bool-cases (body.direction == "in")) [
        | inl e ↦ comes_in ((eq_iff body.direction "in").0 e)
        | inr other ↦ elim (Bool-cases (body.direction == "out")) [
          | inl e ↦
              let sign : neg_part i.qty_on_hand ≡ 0 =
                (let k = h.not_negative body.item_id in rw found at k) in
              let test : ltb_ℤ i.qty_on_hand (pos qty) ≡ false = rw e at enough in
              goes_out ((eq_iff body.direction "out").0 e) (rw found (ground (arith, sign, test)))
          | inr neither ↦ let bad = rw (other, neither) at valid in cc
        ]
      ]

  -- Whatever the request, by whomever, and whether it is refused.
  record_movement-IsAccounted :
      (id user_id : String) (body : MovementBody) (start db : InventoryDb)
      → IsAccounted start db
      → IsAccounted start (record_movement env tenant_id id user_id body db).1
  unfolding record_movement enter get_user_roles
  record_movement-IsAccounted id user_id body start db h =
      let roles = get_user_roles env db.users user_id in
      elim (Bool-cases (env.resolve tenant_id "finance.inventory")) [
        | inr off ↦ rw off h
        | inl on ↦ elim (Bool-cases (env.tenant_exists tenant_id)) [
          | inr absent ↦ rw (on, absent) h
          | inl present ↦ elim (Bool-cases (has_any_role roles allowed_roles)) [
            | inr stranger ↦ rw (on, present, stranger) h
            | inl staff ↦
                elim (Bool-cases (all (λ role. not (includes roles role)) writing_roles)) [
                  | inl reader ↦ rw (on, present, staff, reader) h
                  | inr writer ↦
                      rw (on, present, staff, writer)
                        (move_stock-IsAccounted id user_id body start db h)
                ]
          ]
        ]
      ]

  -- The states that movements reach.
  pub data Served (start : InventoryDb) : InventoryDb → Type 0 where
    none_yet : Served start start
    moves :
        {db : InventoryDb} (id user_id : String) (body : MovementBody)
        → Served start db
        → Served start (record_movement env tenant_id id user_id body db).1

  -- From a start where no stock is negative, and after any sequence of movement requests, refused
  -- ones included: no stock is negative, and for each item the stock at the start and what came in
  -- since are what went out since and the stock.
  pub Served-IsAccounted :
      (start db : InventoryDb)
      → ((id : String) → neg_part (stock id start) ≡ 0)
      → Served start db
      → IsAccounted start db
  Served-IsAccounted start _ h none_yet = record { not_negative = h; accounts = λ j. omega arith }
  Served-IsAccounted start _ h (moves {db} id user_id body served) =
      record_movement-IsAccounted id user_id body start db (Served-IsAccounted start db h served)
