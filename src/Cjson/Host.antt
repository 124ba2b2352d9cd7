-- ===== src/Cjson/Host.antt =====
-- A concrete cJSON that meets the laws of Cjson.antt: allocation never fails, an object under
-- construction is the list of what was added, and every text that starts with a brace parses as the
-- command `set_output` with the value true.
use iot_visual_management_sy.Prelude.{
  ℕ, ◌+◌, ◌-◌, ◌==◌, ◌≡◌, refl, ℤ, pos, eqb_ℤ, Bool, true, false, [], ◌∷◌, ◌++◌, Option, none, some,
  Bytes, codes, eqb_bytes, arith, if◌then◌else◌, pos_part,
}
use iot_visual_management_sy.Cjson.{CjsonApi}

pub data Item : Type 0 where
  root_item command_item value_item : Item

pub record HostHeap : Type 0 where
  pub count : ℕ
  pub entries : Bytes

abbrev is_root : Item → Bool
is_root root_item = true
is_root command_item = false
is_root value_item = false

abbrev is_command : Item → Bool
is_command root_item = false
is_command command_item = true
is_command value_item = false

abbrev is_value : Item → Bool
is_value root_item = false
is_value command_item = false
is_value value_item = true

abbrev pub host_parse : Bytes → HostHeap → Option Item × HostHeap
host_parse [] h = (none, h)
host_parse (b ∷ bs) h =
    if b == 123 then (some root_item, record h { count = h.count + 1 }) else (none, h)

pub host_parse-live :
    (s : Bytes) (h : HostHeap)
    → (host_parse s h).1.count ≡ h.count + (elim (host_parse s h).0 [ none ↦ 0 | some n ↦ 1 ])
host_parse-live [] h = ground arith
host_parse-live (b ∷ bs) h = ground arith

pub host_print : (t s : Bytes) → some t ≡ some s → s ≡ t
host_print t s h = ground arith

pub host_zero : (d : ℤ) → eqb_ℤ d (pos 0) ≡ true → eqb_ℤ d (pos 1) ≡ false
host_zero d h = ground arith

abbrev host_add : Bytes → Bytes → HostHeap → Bool × HostHeap
host_add name value h = (true, record h { entries = h.entries ++ (name ++ value) })

abbrev pub host_json : CjsonApi
host_json = record {
  Heap = HostHeap;
  Node = Item;
  Double = ℤ;
  live = λ h. h.count;
  of_int = λ i. i;
  create_object = λ h. (some root_item, record { count = h.count + 1; entries = [] });
  add_string = λ n k s h. host_add k s h;
  add_number = λ n k d h. host_add k (pos_part d ∷ []) h;
  print_unformatted = λ n h. (some (123 ∷ h.entries), record h { count = h.count + 1 });
  delete = λ n h. record h { count = h.count - 1 };
  free = λ h. record h { count = h.count - 1 };
  parse = host_parse;
  is_object = is_root;
  get_item = λ n k. if eqb_bytes k (codes "command") then some command_item else some value_item;
  array_size = λ n. 2;
  is_string = is_command;
  is_bool = is_value;
  is_true = is_value;
  is_number = λ n. false;
  value_string = λ n. codes "set_output";
  value_double = λ n. pos 0;
  is_zero = λ d. eqb_ℤ d (pos 0);
  is_one = λ d. eqb_ℤ d (pos 1);
  true_is_bool = λ n h. h;
  bool_is_no_number = λ n h. refl;
  zero_is_not_one = host_zero;
  Fields = Bytes;
  no_fields = [];
  with_string = λ fs k s. fs ++ (k ++ s);
  with_number = λ fs k d. fs ++ (k ++ pos_part d ∷ []);
  fields = λ n h. h.entries;
  text = λ fs. 123 ∷ fs;
  live-create_object = λ h. refl;
  live-add_string = λ n k s h. omega arith;
  live-add_number = λ n k d h. omega arith;
  live-print_unformatted = λ n h. refl;
  live-delete = λ n h. refl;
  live-free = λ h. refl;
  live-parse = host_parse-live;
  fields-create_object = λ h n e. refl;
  fields-add_string = λ n k s h e. refl;
  fields-add_number = λ n k d h e. refl;
  print_text = λ n h s e. host_print (123 ∷ h.entries) s e;
}
