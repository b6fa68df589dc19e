-- ===== src/Loop/Review.antt =====
-- backend/core/s01_agent_loop/tool_review.py: a model reviews the calls that need an approval. The
-- regular expression for a fenced block, `json.loads`, `str`, `str.lower`, the validation of a
-- `ReviewResult` and the encoding of the request are parameters; the adapter's answer is an argument.
use neuralhub.Base.{
  ℕ, zero, suc, ◌+◌, min, max, ◌≡◌, refl, ap, inl, inr, ◌||◌, Option, none, some, List, [], ◌∷◌,
  map, leb, ◌==◌, if◌then◌else◌, length, take, drop, Text, codes, text_eq, has, value_error, Result,
  ok, raise, ◌>>=◌, Result-cases, lstrip, rstrip, strip,
}
use neuralhub.Types.{Json, Items, Fields, ToolCall, string, array, object, nil, cons, end, field}

pub data ReviewDecision : Type 0 where
  auto_approve require_human auto_reject : ReviewDecision

pub data RiskLevel : Type 0 where
  low medium high : RiskLevel

pub record ReviewResult : Type 0 where
  pub decision : ReviewDecision
  pub reason : Text
  pub risk_level : RiskLevel

abbrev pub default_review : ReviewResult
default_review = record {
  decision = require_human;
  reason = codes "审核结果无法确认，需人工确认。";
  risk_level = medium;
}

pub record ReviewTexts : Type 0 where
  pub fenced : Text → Option Text
  pub loads : Text → Result Json
  pub show_json : Json → Text
  pub lower : Text → Text
  pub validate : Json → Result ReviewResult

-- `text.find(c)` and `text.rfind(c)`, where `none` is -1.
unfoldable pub find_char : (c : ℕ) → Text → Option ℕ
find_char c [] = none
find_char c (d ∷ t) =
    if d == c then some 0 else elim (find_char c t) [ none ↦ none | some i ↦ some (i + 1) ]

unfoldable pub rfind_char : (c : ℕ) → Text → Option ℕ
rfind_char c [] = none
rfind_char c (d ∷ t) = elim (rfind_char c t) [
  | some i ↦ some (i + 1)
  | none ↦ if d == c then some 0 else none
]

abbrev pub earlier : Option ℕ → Option ℕ → Option ℕ
earlier none b = b
earlier (some i) none = some i
earlier (some i) (some j) = some (min i j)

abbrev pub later : Option ℕ → Option ℕ → Option ℕ
later none b = b
later (some i) none = some i
later (some i) (some j) = some (max i j)

unfoldable pub slice_json : Text → (start end_position : Option ℕ) → Text
slice_json text (some start) (some last) =
    if leb start last then drop start (take (last + 1) text) else text
slice_json text _ _ = text

-- `data.get(key, "")`, and `data[key] = value`.
unfoldable pub field_or_blank : (key : Text) → Fields → Json
field_or_blank key end = string []
field_or_blank key (field k v fs) =
    let rest = field_or_blank key fs in if text_eq k key then v else rest

unfoldable pub set_field : (key : Text) → Json → Fields → Fields
set_field key j end = field key j end
set_field key j (field k v fs) =
    let rest = set_field key j fs in if text_eq k key then field k j fs else field k v rest

unfoldable pub field_or : (key : Text) → (default : Json) → Fields → Json
field_or key default end = default
field_or key default (field k v fs) =
    let rest = field_or key default fs in if text_eq k key then v else rest

-- `raw.get("results", raw) if isinstance(raw, dict) else raw`, and then the list of the items.
unfoldable pub raw_items : Json → Json
unfolding field_or
raw_items (object fs) = field_or (codes "results") (object fs) fs
raw_items j = j

unfoldable pub item_list : Json → Result Items
item_list (object fs) = ok (cons (object fs) nil)
item_list (array js) = ok js
item_list _ = raise (value_error (codes "review output is not a list"))

-- `value.replace("-", "_").replace(" ", "_")`.
unfoldable pub dashes_replaced : Text → Text
dashes_replaced t = map (λ c. if c == 45 || c == 32 then 95 else c) t

abbrev pub approve_words : List Text
approve_words = codes "approve" ∷ codes "approved" ∷ codes "allow" ∷ codes "allowed" ∷ []

abbrev pub reject_words : List Text
reject_words = codes "reject" ∷ codes "rejected" ∷ codes "deny" ∷ codes "denied" ∷ []

abbrev pub human_words : List Text
human_words =
    codes "human" ∷ codes "manual" ∷ codes "require_approval" ∷ codes "requires_approval" ∷ []

unfoldable pub normalized_decision : (decision : Text) → Fields → Fields
unfolding has set_field
normalized_decision decision fs =
    if has decision approve_words
    then set_field (codes "decision") (string (codes "auto_approve")) fs
    else if has decision reject_words
    then set_field (codes "decision") (string (codes "auto_reject")) fs
    else if has decision human_words
    then set_field (codes "decision") (string (codes "require_human")) fs
    else fs

unfoldable pub normalized_risk : (risk : Text) → Fields → Fields
unfolding has set_field
normalized_risk risk fs =
    if has risk (codes "none" ∷ codes "safe" ∷ [])
    then set_field (codes "risk_level") (string (codes "low")) fs
    else if has risk (codes "moderate" ∷ codes "unknown" ∷ [])
    then set_field (codes "risk_level") (string (codes "medium")) fs
    else fs

-- `while len(results) < expected_count: results.append(ReviewResult())`, then `[:expected_count]`.
unfoldable pub pad : (expected_count : ℕ) → List ReviewResult → List ReviewResult
pad zero results = []
pad (suc n) [] = default_review ∷ pad n []
pad (suc n) (r ∷ rs) = r ∷ pad n rs

-- `zip(calls, results, strict=False)`.
unfoldable pub zip_reviews : List ToolCall → List ReviewResult → List (ToolCall × ReviewResult)
zip_reviews [] rs = []
zip_reviews (c ∷ cs) [] = []
zip_reviews (c ∷ cs) (r ∷ rs) = (c, r) ∷ zip_reviews cs rs

module _ (texts : ReviewTexts) where
  open texts use {fenced, loads, show_json, lower, validate}

  unfoldable pub json_content : (content : Text) → Text
  unfolding find_char rfind_char slice_json lstrip rstrip
  json_content content =
      let stripped = strip content in
      elim (fenced stripped) [
        | some inner ↦ strip inner
        | none ↦
            slice_json stripped (earlier (find_char 91 stripped) (find_char 123 stripped))
              (later (rfind_char 93 stripped) (rfind_char 125 stripped))
      ]

  unfoldable pub canonical : Text → Text
  unfolding dashes_replaced lstrip rstrip
  canonical value = dashes_replaced (lower (strip value))

  unfoldable pub normalize_item : Json → Json
  unfolding canonical normalized_decision normalized_risk field_or_blank
  normalize_item (object fs) =
      let decision = canonical (show_json (field_or_blank (codes "decision") fs)) in
      let risk = canonical (show_json (field_or_blank (codes "risk_level") fs)) in
      object (normalized_risk risk (normalized_decision decision fs))
  normalize_item j = j

  unfoldable pub validate_items : Items → Result (List ReviewResult)
  unfolding normalize_item
  validate_items nil = ok []
  validate_items (cons j js) =
      validate (normalize_item j) >>= λ r. validate_items js >>= λ rs. ok (r ∷ rs)

  unfoldable pub parse_review_results : (content : Text) → (expected_count : ℕ) → List ReviewResult
  unfolding json_content raw_items item_list validate_items pad
  parse_review_results content expected_count =
      elim (loads (json_content content) >>= λ raw. item_list (raw_items raw) >>= validate_items) [
        | ok results ↦ pad expected_count results
        | raise e ↦ pad expected_count []
      ]

  -- The adapter's answer is the content of its response, or its exception.
  unfoldable pub review_tool_calls :
      (answer : Result Text) → List ToolCall → List (ToolCall × ReviewResult)
  unfolding parse_review_results zip_reviews
  review_tool_calls (ok content) calls =
      zip_reviews calls (parse_review_results content (length calls))
  review_tool_calls (raise e) calls = zip_reviews calls (map (λ c. default_review) calls)

  zip-pad :
      (calls : List ToolCall) (rs : List ReviewResult)
      → map (λ p. p.0) (zip_reviews calls (pad (length calls) rs)) ≡ calls
  unfolding zip_reviews pad
  zip-pad [] rs = refl
  zip-pad (c ∷ cs) [] = ap (λ xs. c ∷ xs) (zip-pad cs [])
  zip-pad (c ∷ cs) (r ∷ rs) = ap (λ xs. c ∷ xs) (zip-pad cs rs)

  zip-default :
      (calls : List ToolCall)
      → map (λ p. p.0) (zip_reviews calls (map (λ c. default_review) calls)) ≡ calls
  unfolding zip_reviews
  zip-default [] = refl
  zip-default (c ∷ cs) = ap (λ xs. c ∷ xs) (zip-default cs)

  -- Each call gets a review, whatever the model answers: the reviewed calls are the calls, in their
  -- order.
  pub review-calls :
      (answer : Result Text) (calls : List ToolCall)
      → map (λ p. p.0) (review_tool_calls answer calls) ≡ calls
  unfolding review_tool_calls parse_review_results
  review-calls (raise e) calls = zip-default calls
  review-calls (ok content) calls =
      elim (Result-cases
        (loads (json_content content) >>= λ raw. item_list (raw_items raw) >>= validate_items)) [
          | inl (results, e) ↦ rw (parse_review_results, e) (zip-pad calls results)
          | inr (x, e) ↦ rw (parse_review_results, e) (zip-pad calls [])
        ]
