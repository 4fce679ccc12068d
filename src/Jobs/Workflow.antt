-- ===== src/Jobs/Workflow.antt =====
-- src/jobs/workflow-template.model.ts. `RawField` is a value read off an object of the JSON column, as
-- far as the code looks into it; an index that is not found is `none`, and -1 is a fresh job.
use mathlib.Core.Option
use fenzit_be.Prelude.Texts.{trim}
use fenzit_be.Prelude.{
  ◌∙◌, ap, suc, find, refl, text_eq_sym, head?, text_eq_self, ◌++◌, inr, arith, inl, Option-cases,
  false, length, ◌==◌, subst, get_elem?, ◌+◌, [], exists, codes, ltb, ◌||◌, ◌∷◌, ◌≡◌, text_eq, none,
  some, if◌then◌else◌, ◌&&◌, true, leb, List, Option, ℕ, Text, Bool,
}

pub data RawField : Type 0 where
  absent other : RawField
  boolean : Bool → RawField
  string : Text → RawField

pub data RawEntry : Type 0 where
  object : (Text → RawField) → RawEntry
  no_object : RawEntry

pub data SetsStatus : Type 0 where
  in_progress completed : SetsStatus

pub data AdvancesOn : Type 0 where
  photo_confirm : AdvancesOn

pub record TemplateStep : Type 0 where
  pub key : Text
  pub label : Text
  pub requires_photo : Bool
  pub requires_signature : Bool
  pub requires_location : Bool
  pub sets_status : Option SetsStatus
  pub advances_on : Option AdvancesOn

abbrev is_key_char : ℕ → Bool
is_key_char c = (leb b'a' c && leb c b'z') || (leb b'0' c && leb c b'9') || (c == b'_')

all_chars : (ℕ → Bool) → Text → Bool
all_chars p [] = true
all_chars p (c ∷ s) = p c && all_chars p s

-- `/^[a-z0-9_]{1,64}$/`
unfoldable pub is_step_key : Text → Bool
unfolding all_chars
is_step_key s = all_chars is_key_char s && (ltb 0 (length s) && leb (length s) 64)

key_field : RawField → Option Text
unfolding is_step_key
key_field (string s) = if is_step_key s then some s else none
key_field _ = none

label_field : RawField → Option Text
label_field (string s) = if ltb 0 (length (trim s)) then some s else none
label_field _ = none

boolean_field : RawField → Option Bool
boolean_field (boolean b) = some b
boolean_field _ = none

-- Absent is true.
location_field : RawField → Option Bool
location_field absent = some true
location_field (boolean b) = some b
location_field _ = none

status_field : RawField → Option (Option SetsStatus)
status_field absent = some none
status_field (string s) =
    if text_eq s (codes "in_progress")
    then some (some in_progress)
    else if text_eq s (codes "completed")
    then some (some completed)
    else none
status_field _ = none

advances_field : RawField → Option (Option AdvancesOn)
advances_field absent = some none
advances_field (string s) =
    if text_eq s (codes "photo_confirm") then some (some photo_confirm) else none
advances_field _ = none

infixl 5 ◌>>=◌
abbrev ◌>>=◌ : {A B : Type 0} → Option A → (A → Option B) → Option B
none >>= k = none
some a >>= k = k a

unfoldable pub parse_step : RawEntry → Option TemplateStep
unfolding key_field label_field boolean_field location_field status_field advances_field
parse_step no_object = none
parse_step (object raw) = do
  key ← key_field (raw (codes "key"))
  label ← label_field (raw (codes "label"))
  requires_photo ← boolean_field (raw (codes "requires_photo"))
  requires_signature ← boolean_field (raw (codes "requires_signature"))
  requires_location ← location_field (raw (codes "requires_location"))
  sets_status ← status_field (raw (codes "sets_status"))
  advances_on ← advances_field (raw (codes "advances_on"))
  some (record {
    key = key;
    label = label;
    requires_photo = requires_photo;
    requires_signature = requires_signature;
    requires_location = requires_location;
    sets_status = sets_status;
    advances_on = advances_on;
  })

abbrev pub has_step_key : Text → TemplateStep → Bool
has_step_key key s = text_eq s.key key

-- The loop, with the keys that it has seen.
unfoldable pub parse_entries : List Text → List RawEntry → Option (List TemplateStep)
parse_entries seen [] = some []
parse_entries seen (entry ∷ entries) = elim (parse_step entry) [
  | none ↦ none
  | some s ↦
      if exists (text_eq s.key) seen then none else elim (parse_entries (s.key ∷ seen) entries) [
        | none ↦ none
        | some steps ↦ some (s ∷ steps)
      ]
]

unfoldable pub parse_template_steps : Option (List RawEntry) → Option (List TemplateStep)
parse_template_steps none = none
parse_template_steps (some []) = none
parse_template_steps (some (entry ∷ entries)) = parse_entries [] (entry ∷ entries)

unfoldable pub find_index : Text → List TemplateStep → Option ℕ
find_index key [] = none
find_index key (s ∷ steps) =
    if has_step_key key s
    then some 0
    else elim (find_index key steps) [ none ↦ none | some i ↦ some (i + 1) ]

-- The position after the current step: 0 for a fresh job.
unfoldable pub index_after : List TemplateStep → Option Text → Option ℕ
index_after steps none = some 0
index_after steps (some current) = elim (find_index current steps) [
  | none ↦ none
  | some i ↦ some (i + 1)
]

unfoldable pub next_step_key : List TemplateStep → Option Text → Option Text
next_step_key steps current = elim (index_after steps current) [
  | none ↦ none
  | some i ↦ elim (get_elem? steps i) [ none ↦ none | some s ↦ some s.key ]
]

unfoldable pub sets_status_of : List TemplateStep → Text → Option SetsStatus
sets_status_of steps key = elim (find (has_step_key key) steps) [
  | none ↦ none
  | some s ↦ s.sets_status
]

abbrev advances_on_photo : Option AdvancesOn → Bool
advances_on_photo none = false
advances_on_photo (some photo_confirm) = true

unfoldable pub photo_confirm_step : List TemplateStep → Option TemplateStep
photo_confirm_step steps = find (λ (s : TemplateStep). advances_on_photo s.advances_on) steps

pub record WorkflowStepResponse : Type 0 where
  pub key : Text
  pub label : Text
  pub requires_photo : Bool
  pub requires_signature : Bool
  pub requires_location : Bool
  pub sets_status : Option SetsStatus
  pub advances_on : Option AdvancesOn

unfoldable pub step_to_response : TemplateStep → WorkflowStepResponse
step_to_response step = record {
  key = step.key;
  label = step.label;
  requires_photo = step.requires_photo;
  requires_signature = step.requires_signature;
  requires_location = step.requires_location;
  sets_status = step.sets_status;
  advances_on = step.advances_on;
}

-- `none` for a fresh job and for a step that the template does not have.
unfoldable pub current_step_index_for_read : List TemplateStep → Option Text → Option ℕ
current_step_index_for_read steps none = none
current_step_index_for_read steps (some current) = find_index current steps

-- Every key is new.
abbrev pub IsDistinct : List Text → List TemplateStep → Type 0
IsDistinct seen [] = Unit
IsDistinct seen (s ∷ steps) =
    (exists (text_eq s.key) seen ≡ false) × IsDistinct (s.key ∷ seen) steps

parse_entries-IsDistinct :
    (seen : List Text) (entries : List RawEntry) {steps : List TemplateStep}
    → parse_entries seen entries ≡ some steps
    → IsDistinct seen steps
unfolding parse_entries
parse_entries-IsDistinct seen [] {steps} h =
    let same : [] ≡ steps = cc in subst (IsDistinct seen) same tt
parse_entries-IsDistinct seen (entry ∷ entries) {steps} h = elim (Option-cases (parse_step entry)) [
  | inl e ↦ absurd (ground arith)
  | inr (s, e) ↦ elim (Option-cases (parse_entries (s.key ∷ seen) entries)) [
    | inl f ↦ absurd (ground arith)
    | inr (rest, f) ↦
        let same : s ∷ rest ≡ steps = ground arith in
        subst (IsDistinct seen) same
          (ground arith, parse_entries-IsDistinct (s.key ∷ seen) entries f)
  ]
]

distinct-seen :
    (seen : List Text) (xs : List TemplateStep) (s : TemplateStep) (ys : List TemplateStep)
    → IsDistinct seen (xs ++ s ∷ ys)
    → exists (text_eq s.key) seen ≡ false
distinct-seen seen [] s ys d = d.0
distinct-seen seen (x ∷ xs) s ys d = ground (arith, distinct-seen (x.key ∷ seen) xs s ys d.1)

-- A step and the step behind it differ.
pub distinct-next :
    (seen : List Text) (xs : List TemplateStep) (s t : TemplateStep) (ys : List TemplateStep)
    → IsDistinct seen (xs ++ s ∷ t ∷ ys)
    → text_eq s.key t.key ≡ false
distinct-next seen [] s t ys d = ground (arith, text_eq_sym s.key t.key)
distinct-next seen (x ∷ xs) s t ys d = distinct-next (x.key ∷ seen) xs s t ys d.1

find_index-distinct :
    (seen : List Text) (xs : List TemplateStep) (s : TemplateStep) (ys : List TemplateStep)
    → IsDistinct seen (xs ++ s ∷ ys)
    → find_index s.key (xs ++ s ∷ ys) ≡ some (length xs)
unfolding find_index
find_index-distinct seen [] s ys d = ground (arith, text_eq_self s.key)
find_index-distinct seen (x ∷ xs) s ys d = ground (
  arith,
  find_index-distinct (x.key ∷ seen) xs s ys d.1,
  distinct-seen (x.key ∷ seen) xs s ys d.1,
  text_eq_sym s.key x.key,
)

get_elem?-after :
    (xs : List TemplateStep) (s : TemplateStep) (ys : List TemplateStep)
    → get_elem? (xs ++ s ∷ ys) (suc (length xs)) ≡ head? ys
get_elem?-after [] s [] = refl
get_elem?-after [] s (y ∷ ys) = refl
get_elem?-after (x ∷ xs) s ys = get_elem?-after xs s ys

pub parse_template_steps-IsDistinct :
    (raw : Option (List RawEntry)) {steps : List TemplateStep}
    → parse_template_steps raw ≡ some steps
    → IsDistinct [] steps
unfolding parse_template_steps
parse_template_steps-IsDistinct none h = cc
parse_template_steps-IsDistinct (some []) h = cc
parse_template_steps-IsDistinct (some (entry ∷ entries)) h =
    parse_entries-IsDistinct [] (entry ∷ entries) h

-- In a template that parses, a fresh job goes to the first step, the step after a step is the one that
-- stands behind it, and the last step has none: each step is reached once, in order.
pub parse_template_steps-next :
    (raw : Option (List RawEntry)) (xs : List TemplateStep) (s : TemplateStep)
    (ys : List TemplateStep)
    → parse_template_steps raw ≡ some (xs ++ s ∷ ys)
    → (next_step_key (xs ++ s ∷ ys) none
        ≡ Option.map (λ (t : TemplateStep). t.key) (head? (xs ++ s ∷ ys)))
      × (next_step_key (xs ++ s ∷ ys) (some s.key)
          ≡ Option.map (λ (t : TemplateStep). t.key) (head? ys))
unfolding parse_template_steps next_step_key index_after
parse_template_steps-next none xs s ys h = cc
parse_template_steps-next (some []) xs s ys h = cc
parse_template_steps-next (some (entry ∷ entries)) xs s ys h =
    let distinct = parse_entries-IsDistinct [] (entry ∷ entries) h in
    let index = find_index-distinct [] xs s ys distinct in
    let next : length xs + 1 ≡ suc (length xs) = omega arith in
    let behind : get_elem? (xs ++ s ∷ ys) (length xs + 1) ≡ head? ys =
      ap (get_elem? (xs ++ s ∷ ys)) next ∙ get_elem?-after xs s ys in
    (ground arith, ground (arith, index, behind))
