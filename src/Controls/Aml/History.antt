-- ===== src/Controls/Aml/History.antt =====
-- The text of the history entries, and what recording keeps of them.
use Prim.Native.Char.{code}
use text.Mathlib.TextLemmas.{nil-append, cons-append}
use global_payments_observab.Base.{
  ℕ, suc, ◌+◌, ◌≤◌, String, ◌<>◌, ◌≡◌, refl, Bool, true, false, ◌&&◌, some, List, ◌∷◌, arith, ◌==◌,
  length, take, length-take, length-take_full, max, ◌/◌, if◌then◌else◌,
}
use global_payments_observab.Contracts.Enums.{PaymentMethod, method_value, pix, boleto, ted, card}
use global_payments_observab.Rails.{aml_history_key, aml_history_max_items}
use global_payments_observab.Api.Cache.{Redis, Format}
use global_payments_observab.Api.World.{World}
use global_payments_observab.Controls.Aml.{AmlSettings, record_outgoing, second}
use global_payments_observab.Controls.Aml.Entry.{format_entry, split_bar, try_parse_entry}

-- No bar stands in the text.
unfoldable pub no_bar : String → Bool
no_bar String.[] = true
no_bar (String.◌∷◌ c s) = (if code c == b'|' then false else true) && no_bar s

-- What Python's text forms promise: a number is read back from its text, and its digits hold no bar.
pub record IsFaithful (F : Format) : Type 0 where
  pub read_show_int : (n : ℕ) → F.read_int (F.show_int n) ≡ some n
  pub show_int_plain : (n : ℕ) → no_bar (F.show_int n) ≡ true
  pub read_show_amount : (n : ℕ) → F.read_amount (F.show_amount n) ≡ some n

split_bar_lem : (a b : String) → no_bar a ≡ true → split_bar (a <> ("|" <> b)) ≡ some (a, b)
unfolding split_bar no_bar
split_bar_lem String.[] b h = rw (nil-append, cons-append, nil-append) refl
split_bar_lem (String.◌∷◌ c a) b h = rw cons-append (ground (arith, split_bar_lem a b))

method_value_plain : (rail : PaymentMethod) → no_bar (method_value rail) ≡ true
unfolding method_value no_bar
method_value_plain pix = refl
method_value_plain boleto = refl
method_value_plain ted = refl
method_value_plain card = refl

-- An entry that the engine records is read back as it was: time, rail and amount.
pub try_parse-format :
    (F : Format)
    → IsFaithful F
    → (ts : ℕ) (rail : PaymentMethod) (amount : ℕ)
    → try_parse_entry F (format_entry F ts (method_value rail) amount)
      ≡ some (record { ts = ts; rail = method_value rail; amount = amount })
unfolding try_parse_entry format_entry
try_parse-format F f ts rail amount = ground (
  arith,
  split_bar_lem (F.show_int ts) (method_value rail <> ("|" <> F.show_amount amount))
      (f.show_int_plain ts),
  split_bar_lem (method_value rail) (F.show_amount amount) (method_value_plain rail),
  f.read_show_int ts,
  f.read_show_amount amount,
)

-- `LPUSH` puts an item in front, `LTRIM 0 n` keeps the items from 0 to `n`, both ends included, and
-- `EXPIRE` of a list that is still alive keeps its items.
pub record KeepsLists (R : Redis) : Type 0 where
  pub items : R.State → String → List String
  pub lpush_reply : (k v : String) (s : R.State) → (R.lpush k v s).0 ≡ some tt
  pub lpush_items : (k v : String) (s : R.State) → items (R.lpush k v s).1 k ≡ v ∷ items s k
  pub ltrim_reply : (k : String) (n : ℕ) (s : R.State) → (R.ltrim k 0 n s).0 ≡ some tt
  pub ltrim_items :
      (k : String) (n : ℕ) (s : R.State) → items (R.ltrim k 0 n s).1 k ≡ take (suc n) (items s k)
  pub expire_items : (k : String) (n : ℕ) (s : R.State) → items (R.expire k n s).1 k ≡ items s k

kept :
    {R : Redis} (L : KeepsLists R) (F : Format) (S : AmlSettings) (now : ℕ) (customer : String)
    (rail : PaymentMethod) (amount : ℕ) (w : World R)
    → let key = aml_history_key customer in
      L.items (record_outgoing F S now customer rail amount w).1.redis key
      ≡ take 501 (format_entry F (now / second) (method_value rail) amount ∷ L.items w.redis key)
unfolding record_outgoing
kept {R} L F S now customer rail amount w =
    let key = aml_history_key customer in
    let entry = format_entry F (now / second) (method_value rail) amount in
    let pushed = (R.lpush key entry w.redis).1 in
    let trimmed = (R.ltrim key 0 500 pushed).1 in
    ground (
      arith,
      L.lpush_reply key entry w.redis,
      L.lpush_items key entry w.redis,
      L.ltrim_reply key 500 pushed,
      L.ltrim_items key 500 pushed,
      L.expire_items key (max S.total_window_seconds S.structuring_window_seconds) trimmed,
    )

-- Recording puts the entry in front and keeps the 501 newest: one more than `AML_HISTORY_MAX_ITEMS`.
pub record_outgoing_keeps_501 :
    {R : Redis} (L : KeepsLists R) (F : Format) (S : AmlSettings) (now : ℕ) (customer : String)
    (rail : PaymentMethod) (amount : ℕ) (w : World R)
    → let key = aml_history_key customer in
      let w' = (record_outgoing F S now customer rail amount w).1 in
      (L.items w'.redis key
        ≡ take 501 (format_entry F (now / second) (method_value rail) amount ∷ L.items w.redis key))
      × (length (L.items w'.redis key) ≤ aml_history_max_items + 1)
      × (aml_history_max_items ≤ length (L.items w.redis key)
          → length (L.items w'.redis key) ≡ aml_history_max_items + 1)
record_outgoing_keeps_501 L F S now customer rail amount w =
    let key = aml_history_key customer in
    let e = kept L F S now customer rail amount w in
    (
      e,
      rw e (omega (arith, length-take 500 (L.items w.redis key))),
      λ long. rw e (omega (arith, length-take_full 500 (L.items w.redis key) long)),
    )
