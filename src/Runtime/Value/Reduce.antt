-- ===== src/Runtime/Value/Reduce.antt =====
-- runtime/eval.go: what `sum`, `avg`, `min` and `max` fold rows to.
use fct.Base.{
  ℕ, suc, ◌+◌, ◌%◌, Bool, true, false, not, ◌&&◌, Option, none, some, List, [], ◌∷◌, ◌==◌, nat_eq,
  if◌then◌else◌, String,
}
use fct.Base.Text.{Text}
use fct.Runtime.Value.{
  Any, int, float, text, row, Host, word, int_lt, read_field, is_float, to_float, to_int, to_str,
}
use fct.Runtime.Value.Ops.{text_lt, int_div}

pub data Reducer : Type 0 where
  sum avg least most : Reducer

-- The variables of reduceAgg's loop.
pub record Fold (F : Type 0) : Type 0 where
  pub total : ℕ
  pub seen : ℕ
  pub lo : ℕ
  pub hi : ℕ
  pub ftotal : F
  pub flo : F
  pub fhi : F
  pub floats : Bool

module _ {F : Type 0} (h : Host F) where
  -- numValue
  unfoldable pub num_value : Any F → Any F
  num_value v = if is_float v then v else int (to_int h v)

  -- fieldValue: a row that is no record contributes nothing.
  unfoldable pub field_value : String → Any F → Option (Any F)
  unfolding num_value
  field_value name (row fields) = some (num_value (read_field name fields))
  field_value name other = none

  abbrev pub fold_start : Fold F
  fold_start = record {
    total = 0;
    seen = 0;
    lo = 0;
    hi = 0;
    ftotal = h.of_int 0;
    flo = h.of_int 0;
    fhi = h.of_int 0;
    floats = false;
  }

  -- From the first float value on, the fold is over floats.
  unfoldable pub to_floats : Fold F → Any F → Fold F
  to_floats s v =
      if not s.floats && is_float v
      then record s {
        floats = true;
        ftotal = h.of_int s.total;
        flo = h.of_int s.lo;
        fhi = h.of_int s.hi;
      }
      else s

  unfoldable pub fold_float : Fold F → F → Fold F
  fold_float s f = record s {
    flo = if s.seen == 0 then f else if h.lt f s.flo then f else s.flo;
    fhi = if s.seen == 0 then f else if h.lt s.fhi f then f else s.fhi;
    ftotal = h.add s.ftotal f;
    seen = suc s.seen;
  }

  unfoldable pub fold_int : Fold F → ℕ → Fold F
  fold_int s i = record s {
    lo = if s.seen == 0 then i else if int_lt i s.lo then i else s.lo;
    hi = if s.seen == 0 then i else if int_lt s.hi i then i else s.hi;
    total = (s.total + i) % word;
    seen = suc s.seen;
  }

  unfoldable pub fold_value : Fold F → Any F → Fold F
  unfolding to_floats fold_float fold_int
  fold_value s v =
      let t = to_floats s v in
      if t.floats then fold_float t (to_float h v) else fold_int t (to_int h v)

  unfoldable pub fold_rows : (Any F → Option (Any F)) → Fold F → List (Any F) → Fold F
  unfolding fold_value
  fold_rows value s [] = s
  fold_rows value s (r ∷ rows) =
      fold_rows value (elim (value r) [ none ↦ s | some v ↦ fold_value s v ]) rows

  unfoldable pub float_result : Reducer → Fold F → F
  float_result avg s = if s.seen == 0 then h.of_int 0 else h.div s.ftotal (h.of_int s.seen)
  float_result least s = s.flo
  float_result most s = s.fhi
  float_result sum s = s.ftotal

  unfoldable pub int_result : Reducer → Fold F → ℕ
  int_result avg s = if s.seen == 0 then 0 else int_div s.total s.seen
  int_result least s = s.lo
  int_result most s = s.hi
  int_result sum s = s.total

  unfoldable pub reduce_agg : Reducer → List (Any F) → (Any F → Option (Any F)) → Any F
  unfolding fold_rows float_result int_result
  reduce_agg op rows value =
      let s = fold_rows value fold_start rows in
      if s.floats then float (float_result op s) else int (int_result op s)

  abbrev pub beats : Reducer → Text → Text → Bool
  beats least t best = text_lt t best
  beats most t best = text_lt best t
  beats other t best = false

  -- reduceText's loop; `none` is nothing seen yet.
  unfoldable pub fold_texts :
      Reducer → (Any F → Option (Any F)) → Option Text → List (Any F) → Option Text
  fold_texts op value best [] = best
  fold_texts op value best (r ∷ rows) =
      fold_texts op value
        (elim (value r) [
          | none ↦ best
          | some v ↦ elim best [
            | none ↦ some (to_str h v)
            | some t ↦ if beats op (to_str h v) t then some (to_str h v) else some t
          ]
        ])
        rows

  unfoldable pub reduce_text : Reducer → List (Any F) → (Any F → Option (Any F)) → Any F
  unfolding fold_texts
  reduce_text op rows value = elim (fold_texts op value none rows) [
    | none ↦ text []
    | some t ↦ text t
  ]
