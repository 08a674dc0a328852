-- ===== src/Provider.antt =====
-- crates/ancre-provider/src/lib.rs, openai.rs and anthropic.rs: what a provider's response says of
-- the model that served a request. Reading JSON is a parameter: it gives the fields that the source
-- names.
pub mod Sse
pub mod Pinned
use ancre.Prelude.{
  ℕ, ◌+◌, ◌-◌, Bool, true, false, not, ◌&&◌, ◌||◌, List, [], ◌∷◌, ◌++◌, Option, none, some, Result,
  ok, err, Text, text, length, take, drop, get_elem?, ltb, leb, ◌==◌, ℕ-Eq, List-Eq, Option-Eq,
  if◌then◌else◌,
}
use ancre.Types.Risk.{RiskFlag, unpinned_model}
use ancre.Types.Event.{unknown, unresolved_prefix}
use ancre.Provider.Sse.{Frame, is_done}

pub data ProviderKind : Type 0 where
  open_ai anthropic : ProviderKind

-- ProviderKind::as_str
unfoldable pub kind_str : ProviderKind → Text
kind_str open_ai = text "openai"
kind_str anthropic = text "anthropic"

pub record ServedBy : Type 0 where
  pub model_version : Text
  pub flag : Option RiskFlag
  pub tokens_in : ℕ
  pub tokens_out : ℕ

-- ServedBy::pinned
abbrev pub pinned : Text → ℕ → ℕ → ServedBy
pinned m tin tout = record { model_version = m; flag = none; tokens_in = tin; tokens_out = tout }

-- ServedBy::unresolved
abbrev pub unresolved : Text → ℕ → ℕ → ServedBy
unresolved alias tin tout = record {
  model_version = unresolved_prefix ++ alias;
  flag = some unpinned_model;
  tokens_in = tin;
  tokens_out = tout;
}

-- ServedBy::unknown
abbrev pub served_unknown : ServedBy
served_unknown = record {
  model_version = unknown;
  flag = some unpinned_model;
  tokens_in = 0;
  tokens_out = 0;
}

-- ServedBy::is_pinned
abbrev pub is_pinned : ServedBy → Bool
is_pinned s = elim s.flag [ none ↦ true | some f ↦ false ]

pub record StreamPins : Type 0 where
  pub model_version : Option Text
  pub flag : Option RiskFlag
  pub tokens_in : ℕ
  pub tokens_out : ℕ

abbrev pub no_pins : StreamPins
no_pins = record { model_version = none; flag = none; tokens_in = 0; tokens_out = 0 }

abbrev pub or_keep : ℕ → ℕ → ℕ
or_keep new old = if ltb 0 new then new else old

-- The model of `absorb`, on what is known already.
abbrev pub model_once : Option Text → Text → Option Text
model_once none m = some m
model_once (some old) m = some old

abbrev pub flag_once : Option Text → Option RiskFlag → Option RiskFlag → Option RiskFlag
flag_once none f old = f
flag_once (some m) f old = old

-- StreamPins::absorb
unfoldable pub absorb_served : ServedBy → StreamPins → StreamPins
absorb_served s p = record {
  model_version = model_once p.model_version s.model_version;
  flag = flag_once p.model_version s.flag p.flag;
  tokens_in = or_keep s.tokens_in p.tokens_in;
  tokens_out = or_keep s.tokens_out p.tokens_out;
}

-- StreamPins::finish
unfoldable pub finish_pins : StreamPins → ServedBy
finish_pins p = elim p.model_version [
  | none ↦ served_unknown
  | some m ↦ record {
    model_version = m;
    flag = p.flag;
    tokens_in = p.tokens_in;
    tokens_out = p.tokens_out;
  }
]

-- `str::ends_with`, and the bytes from a place counted from the end.
abbrev pub last_bytes : ℕ → List ℕ → List ℕ
last_bytes n id = drop (length id - n) id

abbrev pub ends_with : Text → Text → Bool
ends_with id suffix = leb (length suffix) (length id) && last_bytes (length suffix) id == suffix

abbrev pub has_prefix : Text → Text → Bool
has_prefix id pre = take (length pre) id == pre

abbrev pub is_ascii_digit : ℕ → Bool
is_ascii_digit b = leb 48 b && leb b 57

-- A shape has `d`, which is 100, for a digit.
unfoldable pub all_in_shape : List ℕ → List ℕ → Bool
all_in_shape [] shape = true
all_in_shape (b ∷ bs) [] = true
all_in_shape (b ∷ bs) (s ∷ shape) =
    (if s == 100 then is_ascii_digit b else b == s) && all_in_shape bs shape

unfoldable pub matches_shape : List ℕ → List ℕ → Bool
matches_shape bytes shape = length bytes == length shape && all_in_shape bytes shape

unfoldable pub ends_with_iso_date : Text → Bool
ends_with_iso_date id =
    leb 11 (length id)
    && get_elem? id (length id - 11) == some 45
    && matches_shape (last_bytes 10 id) (text "dddd-dd-dd")

unfoldable pub ends_with_compact_date : Text → Bool
ends_with_compact_date id =
    leb 9 (length id)
    && get_elem? id (length id - 9) == some 45
    && matches_shape (last_bytes 8 id) (text "dddddddd")

-- The `match` of `looks_pinned`.
abbrev pub names_weights : ProviderKind → Text → Bool
names_weights open_ai id = if has_prefix id (text "ft:") then true else ends_with_iso_date id
names_weights anthropic id = ends_with_compact_date id

unfoldable pub looks_pinned : Text → ProviderKind → Bool
looks_pinned id kind =
    if ends_with id (text "-latest") || id == [] then false else names_weights kind id

pub record Usage : Type 0 where
  pub prompt_tokens : ℕ
  pub completion_tokens : ℕ

pub record Response : Type 0 where
  pub model : Option Text
  pub usage : Option Usage

pub data ProviderError : Type 0 where
  malformed untranslatable transport : Text → ProviderError
  upstream : ℕ → ProviderError

abbrev pub counts : Option Usage → ℕ × ℕ
counts none = (0, 0)
counts (some u) = (u.prompt_tokens, u.completion_tokens)

-- The pins of a response that names a model.
abbrev pub served_model : ProviderKind → Text → ℕ × ℕ → ServedBy
served_model kind m (tin, tout) =
    if looks_pinned m kind then pinned m tin tout else unresolved m tin tout

-- The pins of a whole response.
unfoldable pub served : ProviderKind → Response → ServedBy
served kind r = elim r.model [
  | some m ↦ served_model kind m (counts r.usage)
  | none ↦ served_unknown
]

-- The frame with counts only.
abbrev pub usage_only : ℕ × ℕ → ServedBy
usage_only (tin, tout) = record {
  model_version = [];
  flag = none;
  tokens_in = tin;
  tokens_out = tout;
}

-- The pins of a frame, from the model and the counts that it names.
unfoldable pub served_frame : ProviderKind → Option Text → ℕ × ℕ → Option ServedBy
served_frame kind (some m) n = some (served_model kind m n)
served_frame kind none n = if ltb 0 n.0 || ltb 0 n.1 then some (usage_only n) else none

-- The implementation of Provider for OpenAi, over the JSON reader.
module _ (from_slice : List ℕ → Result Text Response) where
  abbrev pub read_response : ProviderKind → Result Text Response → Result ProviderError ServedBy
  read_response kind (ok r) = ok (served kind r)
  read_response kind (err e) = err (malformed e)

  -- served_by, of both providers: the source of Anthropic differs in the names of the JSON fields.
  unfoldable pub served_by : ProviderKind → List ℕ → Result ProviderError ServedBy
  served_by kind body = read_response kind (from_slice body)

  abbrev pub read_frame : Result Text Response → Option ServedBy
  read_frame (ok r) = served_frame open_ai r.model (counts r.usage)
  read_frame (err e) = none

  -- served_by_streaming
  unfoldable pub openai_frame : Frame → Option ServedBy
  openai_frame frame = if is_done frame then none else read_frame (from_slice frame.data_bytes)

pub record StreamEvent : Type 0 where
  pub message : Option Response
  pub usage : Option Usage

abbrev pub larger_of : ℕ → ℕ → ℕ
larger_of a b = if leb a b then b else a

abbrev pub larger_counts : ℕ × ℕ → Option Usage → ℕ × ℕ
larger_counts n none = n
larger_counts (tin, tout) (some u) =
    (larger_of tin u.prompt_tokens, larger_of tout u.completion_tokens)

-- The closure over the message of an event.
abbrev pub with_message : ℕ × ℕ → Option Response → Option ServedBy
with_message n none = served_frame anthropic none n
with_message n (some m) = served_frame anthropic m.model (larger_counts n m.usage)

module _ (from_slice : List ℕ → Result Text StreamEvent) where
  abbrev pub read_event : Result Text StreamEvent → Option ServedBy
  read_event (ok ev) = with_message (counts ev.usage) ev.message
  read_event (err e) = none

  -- served_by_streaming of Anthropic
  unfoldable pub anthropic_frame : Frame → Option ServedBy
  anthropic_frame frame = read_event (from_slice frame.data_bytes)

-- upstream_path of Anthropic
unfoldable pub upstream_path : Text → Text
upstream_path ingress =
    let openai = text "/v1/chat/completions" in
    if has_prefix ingress openai
    then text "/v1/messages" ++ drop (length openai) ingress
    else ingress
