-- ===== src/Tests/Aml.antt =====
-- The anti-money-laundering engine, run.
use global_payments_observab.Base.{
  ℕ, zero, suc, ◌+◌, ◌/◌, ◌≤◌, ◌≡◌, String, refl, arith, true, some, List, [], ◌∷◌, length, take,
  eq_refl, ap,
}
use global_payments_observab.Contracts.Enums.{pix, method_value}
use global_payments_observab.Rails.{aml_history_key}
use global_payments_observab.Controls.Aml.{record_outgoing, second}
use global_payments_observab.Controls.Aml.Entry.{
  format_entry, try_parse_entry, sum_recent, count_near,
}
use global_payments_observab.Controls.Aml.Loops.{Totals, Nears, history_loops, parsed}
use global_payments_observab.Controls.Aml.History.{
  IsFaithful, KeepsLists, record_outgoing_keeps_501, try_parse-format, no_bar,
}
use global_payments_observab.Tests.Fixtures.{
  memory_redis, set, strokes, count-strokes, format, services, world,
}

strokes_plain : (n : ℕ) → no_bar (strokes n) ≡ true
unfolding no_bar strokes
strokes_plain zero = refl
strokes_plain (suc n) = strokes_plain n

format-IsFaithful : IsFaithful format
format-IsFaithful = record {
  read_show_int = λ n. ap some (count-strokes n);
  show_int_plain = strokes_plain;
  read_show_amount = λ n. ap some (count-strokes n);
}

try_parse-format_example :
    try_parse_entry format (format_entry format 3 (method_value pix) 2)
    ≡ some (record { ts = 3; rail = method_value pix; amount = 2 })
try_parse-format_example = try_parse-format format format-IsFaithful 3 pix 2

-- an entry that counts, one that does not parse and one that is too old
history_loops_example :
    let entries : List String = "11|pix|11" ∷ "x" ∷ "1|pix|11" ∷ [] in
    Totals "pix" 2 (parsed format entries) (sum_recent format entries "pix" 2)
    × Nears "pix" 2 2 (parsed format entries) (count_near format entries "pix" 2 2)
history_loops_example = history_loops format ("11|pix|11" ∷ "x" ∷ "1|pix|11" ∷ []) "pix" 2 2

set_same_list : (k : String) (xs : List String) (f : String → List String) → set k xs f k ≡ xs
set_same_list k xs f = ground (arith, eq_refl k)

abbrev memory_keeps_lists : KeepsLists memory_redis
memory_keeps_lists = record {
  items = λ s k. s.lists k;
  lpush_reply = λ k v s. refl;
  lpush_items = λ k v s. set_same_list k (v ∷ s.lists k) s.lists;
  ltrim_reply = λ k n s. refl;
  ltrim_items = λ k n s. set_same_list k (take (suc n) (s.lists k)) s.lists;
  expire_items = λ k n s. refl;
}

abbrev no_items : List String
no_items = []

record_outgoing_keeps_501_example :
    let w' = (record_outgoing format services.aml 1000 "alice" pix 2 world).1 in
    (w'.redis.lists (aml_history_key "alice")
      ≡ take 501 (format_entry format (1000 / second) (method_value pix) 2 ∷ []))
    × (length (w'.redis.lists (aml_history_key "alice")) ≤ 500 + 1)
    × (500 ≤ length (no_items) → length (w'.redis.lists (aml_history_key "alice")) ≡ 500 + 1)
record_outgoing_keeps_501_example =
    record_outgoing_keeps_501 memory_keeps_lists format services.aml 1000 "alice" pix 2 world
