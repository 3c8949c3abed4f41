-- ===== src/Finance/Inventory.antt =====
-- The inventory of a school (web-server/src/finance/inventory/inventory.service.ts). Stock and
-- unit costs are numbers, here whole ones; SKU, category, currency, reason and time of a row are
-- left out. The writing roles are the reading roles, so one test of access stands for both.
pub mod Stock
mod Tests
use multi_academy_backend.Prelude.{
  ℕ, zero, suc, ◌+◌, String, Bool, true, false, not, ◌&&◌, ◌||◌, Option, none, some, List, [], ◌∷◌,
  ◌++◌, ◌==◌, if◌then◌else◌, all, includes, find_first, update_where, is_blank, sum_of,
}
use multi_academy_backend.Prelude.Int.{ℤ, pos, negsuc, ◌+ℤ◌, ◌-ℤ◌, ltb_ℤ}
use multi_academy_backend.Http.{
  Action, Result, ok, err, not_found, pure, gets, or_throw, throw_if, require, modify, ◌>>=◌, ◌>>◌,
}
use multi_academy_backend.Tenant.{Environment, User, get_user_roles, has_any_role, enter}

-- A row of `inventory_items`.
pub record Item : Type 0 where
  pub id : String
  pub name : String
  pub qty_on_hand : ℤ
  pub unit_cost : ℤ

-- A row of `inventory_movements`.
pub record Movement : Type 0 where
  pub id : String
  pub item_id : String
  pub direction : String
  pub qty : ℤ
  pub created_by : String

pub record InventoryDb : Type 0 where
  pub users : List User
  pub items : List Item
  pub movements : List Movement

pub record ItemBody : Type 0 where
  pub name : Option String
  pub qty_on_hand : Option ℤ
  pub unit_cost : Option ℤ

pub record MovementBody : Type 0 where
  pub item_id : String
  pub direction : String
  -- `Number(body.qty)`, where it is a whole number.
  pub qty : Option ℤ

-- `Number(x ?? 0)`.
abbrev pub or_zero : Option ℤ → ℤ
or_zero none = pos 0
or_zero (some n) = n

abbrev pub allowed_roles : List String
allowed_roles =
    "director" ∷ "school_admin" ∷ "it_admin" ∷ "principal" ∷ "head_teacher" ∷ "administrative_staff"
    ∷ "bursar" ∷ []

abbrev pub writing_roles : List String
writing_roles =
    "principal" ∷ "head_teacher" ∷ "bursar" ∷ "director" ∷ "school_admin" ∷ "it_admin"
    ∷ "administrative_staff" ∷ []

abbrev pub is_item : String → Item → Bool
is_item id i = i.id == id

-- `!body.name?.trim()`.
abbrev pub no_name : Option String → Bool
no_name none = true
no_name (some name) = is_blank name

abbrev pub name_or_empty : Option String → String
name_or_empty none = ""
name_or_empty (some name) = name

-- The quantity of a movement, where the body is valid.
abbrev pub positive : Option ℤ → Option ℕ
positive none = none
positive (some (negsuc n)) = none
positive (some (pos n)) = elim n [ zero ↦ none | suc m ↦ some (suc m) ]

abbrev pub valid_qty : String → Option ℤ → Option ℕ
valid_qty direction qty = if direction == "in" || direction == "out" then positive qty else none

abbrev pub delta : String → ℕ → ℤ
delta direction qty = if direction == "in" then pos qty else pos 0 -ℤ pos qty

abbrev pub move : ℤ → Item → Item
move d i = record i { qty_on_hand = i.qty_on_hand +ℤ d }

module _ (env : Environment) (tenant_id : String) where
  abbrev pub check_access : List String → Bool → Result (Unit {0})
  check_access roles write =
      if has_any_role roles allowed_roles
      then (if write && all (λ role. not (includes roles role)) writing_roles
          then err (not_found "Inventory writes are restricted to authorized finance staff")
          else ok tt)
      else err (not_found "Inventory access is restricted to authorized finance staff")

  abbrev pub assert_access : String → Bool → Action InventoryDb (Unit {0})
  assert_access actor_id write db = (check_access (get_user_roles env db.users actor_id) write, db)

  -- The rows without their order and the page of 200.
  unfoldable pub list_items : String → Action InventoryDb (List Item)
  list_items actor_id = do
    enter env tenant_id "finance.inventory"
    assert_access actor_id false
    gets (λ db. db.items)

  abbrev pub new_item : String → ItemBody → Item
  new_item id body = record {
    id = id;
    name = name_or_empty body.name;
    qty_on_hand = or_zero body.qty_on_hand;
    unit_cost = or_zero body.unit_cost;
  }

  unfoldable pub create_item : String → String → ItemBody → Action InventoryDb String
  create_item id actor_id body = do
    enter env tenant_id "finance.inventory"
    assert_access actor_id true
    throw_if
        (no_name body.name
          || ltb_ℤ (or_zero body.qty_on_hand) (pos 0)
          || ltb_ℤ (or_zero body.unit_cost) (pos 0))
        (not_found "Inventory item values are invalid")
    modify (λ db. record db { items = db.items ++ new_item id body ∷ [] })
    pure id

  abbrev pub movement_of : String → String → MovementBody → ℕ → Movement
  movement_of id user_id body qty = record {
    id = id;
    item_id = body.item_id;
    direction = body.direction;
    qty = pos qty;
    created_by = user_id;
  }

  abbrev pub apply_movement : String → String → MovementBody → ℕ → InventoryDb → InventoryDb
  apply_movement id user_id body qty db = record db {
    items = update_where (is_item body.item_id) (move (delta body.direction qty)) db.items;
    movements = db.movements ++ movement_of id user_id body qty ∷ [];
  }

  -- `recordMovement`, once access is granted.
  abbrev pub move_stock : String → String → MovementBody → Action InventoryDb String
  move_stock id user_id body = do
    qty ← or_throw (valid_qty body.direction body.qty) (not_found "Inventory movement is invalid")
    found ← gets (λ db. find_first (is_item body.item_id) db.items)
    item ← or_throw found (not_found "Inventory item not found")
    throw_if (body.direction == "out" && ltb_ℤ item.qty_on_hand (pos qty))
        (not_found "Insufficient stock")
    modify (apply_movement id user_id body qty)
    pure id

  unfoldable pub record_movement : String → String → MovementBody → Action InventoryDb String
  record_movement id user_id body = do
    enter env tenant_id "finance.inventory"
    assert_access user_id true
    move_stock id user_id body
