-- ===== src/Cjson.antt =====
-- What the firmware uses of cJSON, as a parameter: the calls, a view of the objects under
-- construction, and the documented laws.
pub mod Host
use iot_visual_management_sy.Prelude.{
  ℕ, ◌+◌, ◌-◌, ◌≡◌, ℤ, Bool, true, false, List, [], ◌∷◌, ◌++◌, Option, none, some, Bytes,
}

-- `Heap` is the memory that cJSON allocates from, `live` the number of trees and strings that were
-- handed out and not released, `Node` an item, and `Double` the type of its numbers.
pub record CjsonApi : Type 1 where
  pub Heap : Type 0
  pub Node : Type 0
  pub Double : Type 0
  pub live : Heap → ℕ
  pub of_int : ℤ → Double
  -- Building and printing; `delete` releases a tree and `free` a string.
  pub create_object : Heap → Option Node × Heap
  pub add_string : Node → Bytes → Bytes → Heap → Bool × Heap
  pub add_number : Node → Bytes → Double → Heap → Bool × Heap
  pub print_unformatted : Node → Heap → Option Bytes × Heap
  pub delete : Node → Heap → Heap
  pub free : Heap → Heap
  -- Parsing, with `require_null_terminated`, and the tests on items.
  pub parse : Bytes → Heap → Option Node × Heap
  pub is_object : Node → Bool
  pub get_item : Node → Bytes → Option Node
  pub array_size : Node → ℕ
  pub is_string : Node → Bool
  pub is_bool : Node → Bool
  pub is_true : Node → Bool
  pub is_number : Node → Bool
  pub value_string : Node → Bytes
  pub value_double : Node → Double
  pub is_zero : Double → Bool
  pub is_one : Double → Bool
  -- An item is of one kind: true is a boolean, and a boolean is no number. Zero is not one.
  pub true_is_bool : (n : Node) → is_true n ≡ true → is_bool n ≡ true
  pub bool_is_no_number : (n : Node) → is_bool n ≡ true → is_number n ≡ false
  pub zero_is_not_one : (d : Double) → is_zero d ≡ true → is_one d ≡ false
  -- The fields of an object under construction, and the text of an object with such fields.
  pub Fields : Type 0
  pub no_fields : Fields
  pub with_string : Fields → Bytes → Bytes → Fields
  pub with_number : Fields → Bytes → Double → Fields
  pub fields : Node → Heap → Fields
  pub text : Fields → Bytes
  pub live-create_object :
      (h : Heap)
      → live (create_object h).1 ≡ live h + (elim (create_object h).0 [ none ↦ 0 | some n ↦ 1 ])
  pub live-add_string : (n : Node) (k s : Bytes) (h : Heap) → live (add_string n k s h).1 ≡ live h
  pub live-add_number :
      (n : Node) (k : Bytes) (d : Double) (h : Heap) → live (add_number n k d h).1 ≡ live h
  pub live-print_unformatted :
      (n : Node) (h : Heap)
      → live (print_unformatted n h).1
        ≡ live h + (elim (print_unformatted n h).0 [ none ↦ 0 | some s ↦ 1 ])
  pub live-delete : (n : Node) (h : Heap) → live (delete n h) ≡ live h - 1
  pub live-free : (h : Heap) → live (free h) ≡ live h - 1
  pub live-parse :
      (s : Bytes) (h : Heap)
      → live (parse s h).1 ≡ live h + (elim (parse s h).0 [ none ↦ 0 | some n ↦ 1 ])
  pub fields-create_object :
      (h : Heap) (n : Node)
      → (create_object h).0 ≡ some n
      → fields n (create_object h).1 ≡ no_fields
  pub fields-add_string :
      (n : Node) (k s : Bytes) (h : Heap)
      → (add_string n k s h).0 ≡ true
      → fields n (add_string n k s h).1 ≡ with_string (fields n h) k s
  pub fields-add_number :
      (n : Node) (k : Bytes) (d : Double) (h : Heap)
      → (add_number n k d h).0 ≡ true
      → fields n (add_number n k d h).1 ≡ with_number (fields n h) k d
  pub print_text :
      (n : Node) (h : Heap) (s : Bytes) → (print_unformatted n h).0 ≡ some s → s ≡ text (fields n h)
