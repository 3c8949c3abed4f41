-- ===== src/Finance/Inventory/Tests.antt =====
-- Runs of the inventory service on a small database.
use multi_academy_backend.Prelude.{◌≡◌, refl, some, [], ◌∷◌, inl, inr, String, Bool-cases, ◌==◌}
use multi_academy_backend.Prelude.Int.{pos, negsuc, neg_part, ◌+ℤ◌, ◌-ℤ◌}
use multi_academy_backend.Http.{err, not_found}
use multi_academy_backend.Tenant.{open_school, array, enter, get_user_roles}
use multi_academy_backend.Finance.Inventory.{InventoryDb, MovementBody, record_movement}
use multi_academy_backend.Finance.Inventory.Stock.{
  none_yet, moves, Served-IsAccounted, IsAccounted, stock,
}

abbrev store : InventoryDb
store = record {
  users = record { id = "bea"; roles = array ("bursar" ∷ []) } ∷ [];
  items = record { id = "i1"; name = "Chalk"; qty_on_hand = pos 10; unit_cost = pos 2 } ∷ [];
  movements = [];
}

abbrev out_of : MovementBody
out_of = record { item_id = "i1"; direction = "out"; qty = some (pos 7) }

abbrev after_one : InventoryDb
after_one = (record_movement open_school "t1" "m1" "bea" out_of store).1

stock_run : stock "i1" after_one ≡ pos 3
unfolding record_movement enter get_user_roles ◌+ℤ◌ ◌-ℤ◌
stock_run = refl

short_run :
    (record_movement open_school "t1" "m2" "bea" out_of after_one).0
    ≡ err (not_found "Insufficient stock")
unfolding record_movement enter get_user_roles ◌+ℤ◌ ◌-ℤ◌
short_run = refl

negative_run :
    (record_movement open_school "t1" "m2" "bea"
      (record { item_id = "i1"; direction = "in"; qty = some (negsuc 0) })
      store).0
    ≡ err (not_found "Inventory movement is invalid")
unfolding record_movement enter get_user_roles
negative_run = refl

store_not_negative : (id : String) → neg_part (stock id store) ≡ 0
store_not_negative id = elim (Bool-cases ("i1" == id)) [ inl e ↦ rw e refl | inr e ↦ rw e refl ]

Served-IsAccounted_example :
    IsAccounted store (record_movement open_school "t1" "m2" "bea" out_of after_one).1
Served-IsAccounted_example =
    Served-IsAccounted open_school "t1" store
      (record_movement open_school "t1" "m2" "bea" out_of after_one).1 store_not_negative
      (moves "m2" "bea" out_of (moves "m1" "bea" out_of none_yet))
