-- ===== src/Process/Logging.antt =====
-- `core/logging.py`. A state is the configuration of structlog and of the standard library's `logging`: the
-- handlers and the level of the root, and the level, the handlers and the flags `propagate` and `disabled`
-- of each logger by its name. Levels are numbers, and 0 is the level of a logger that has none of its own.
-- Filters and `logging.disable`, of which the code makes no use, are left out.
use civio.Base.{
  ℕ, ◌≡◌, refl, ap, sym, ◌∙◌, ◌||◌, String, str_eq, Bool, true, false, Option, none, some, List, [],
  ◌∷◌, ◌++◌, any, All, keep, leb, if◌then◌else◌, ◌==◌, inl, inr, Bool-cases, arith,
}
use mathlib.Core.Path.{fun_ext}
use civio.Config.{Settings, Environment, local, staging, production}

pub data Processor : Type 0 where
  merge_contextvars add_log_level add_logger_name stack_info_renderer format_exc_info json_renderer
        wrap_for_formatter remove_processors_meta :
      Processor
  time_stamper : String → Bool → Processor
  console_renderer : Bool → Processor

pub record ProcessorFormatter : Type 0 where
  pub foreign_pre_chain : List Processor
  pub processors : List Processor

pub record Handler : Type 0 where
  pub stream : String
  pub formatter : ProcessorFormatter

pub record Structlog : Type 0 where
  pub processors : List Processor
  pub wrapper_class : String
  pub logger_factory : String
  pub cache_logger_on_first_use : Bool

pub record Logging : Type 0 where
  pub structlog : Option Structlog
  pub handlers : List Handler
  pub root_level : ℕ
  pub levels : String → ℕ
  pub own_handlers : String → List Handler
  pub propagates : String → Bool
  pub disabled : String → Bool

abbrev pub info_level : ℕ
info_level = 20

abbrev pub warning_level : ℕ
warning_level = 30

abbrev pub noisy_loggers : List String
noisy_loggers = "uvicorn.access" ∷ "httpx" ∷ "httpcore" ∷ []

abbrev pub is_noisy : String → Bool
is_noisy n = any (str_eq n) noisy_loggers

abbrev pub is_local : Environment → Bool
is_local local = true
is_local staging = false
is_local production = false

abbrev pub shared_processors : List Processor
shared_processors =
    merge_contextvars
    ∷ add_log_level
    ∷ add_logger_name
    ∷ time_stamper "iso" true
    ∷ stack_info_renderer
    ∷ format_exc_info
    ∷ []

abbrev pub renderer : Settings → Processor
renderer settings = if is_local settings.environment then console_renderer true else json_renderer

-- `logging.getLogger(name).setLevel(level)`
abbrev set_level : ℕ → (String → ℕ) → String → String → ℕ
set_level level levels name n = if str_eq n name then level else levels n

abbrev set_levels : List String → (String → ℕ) → String → ℕ
set_levels [] levels = levels
set_levels (name ∷ names) levels = set_levels names (set_level warning_level levels name)

unfoldable pub configure_logging : Settings → Logging → Logging
configure_logging settings l = record {
  structlog = some (record {
    processors = shared_processors ++ (wrap_for_formatter ∷ []);
    wrapper_class = "BoundLogger";
    logger_factory = "LoggerFactory";
    cache_logger_on_first_use = true;
  });
  handlers =
      (record {
        stream = "stdout";
        formatter = record {
          foreign_pre_chain = shared_processors;
          processors = remove_processors_meta ∷ renderer settings ∷ [];
        };
      })
      ∷ [];
  root_level = info_level;
  levels = set_levels noisy_loggers l.levels;
  own_handlers = l.own_handlers;
  propagates = l.propagates;
  disabled = l.disabled;
}

-- A line comes from structlog or from the `logging` of a library.
pub data Origin : Type 0 where
  from_structlog from_library : Origin

-- What runs before the line reaches `logging`, whether or not its level is enabled there.
abbrev chain_before : Logging → Origin → List Processor
chain_before l from_structlog = elim l.structlog [ none ↦ [] | some c ↦ c.processors ]
chain_before l from_library = []

-- What the formatter of a handler runs.
abbrev chain : Origin → Handler → List Processor
chain from_structlog h = h.formatter.processors
chain from_library h = h.formatter.foreign_pre_chain ++ h.formatter.processors

abbrev all_chains : Origin → List Handler → List Processor
all_chains o [] = []
all_chains o (h ∷ hs) = chain o h ++ all_chains o hs

-- `callHandlers`: the handlers of the logger, of its parents in turn as long as they propagate, and of the
-- root. A logger is given by its name and the names of its parents.
abbrev called_handlers : Logging → List String → List Handler
called_handlers l [] = l.handlers
called_handlers l (n ∷ ns) =
    let rest = called_handlers l ns in l.own_handlers n ++ (if l.propagates n then rest else [])

abbrev pub is_renderer : Processor → Bool
is_renderer json_renderer = true
is_renderer (console_renderer colors) = true
is_renderer _ = false

-- `getEffectiveLevel`, from the names of the logger and its parents in turn.
abbrev effective_level : Logging → List String → ℕ
effective_level l [] = l.root_level
effective_level l (n ∷ ns) = if l.levels n == 0 then effective_level l ns else l.levels n

abbrev is_disabled : Logging → List String → Bool
is_disabled l [] = l.disabled "root"
is_disabled l (n ∷ ns) = l.disabled n

-- `isEnabledFor`
abbrev pub is_enabled : Logging → List String → ℕ → Bool
is_enabled l names level =
    if is_disabled l names then false else leb (effective_level l names) level

-- The processors that a line of a logger runs through.
abbrev pub passed : Logging → List String → ℕ → Origin → List Processor
passed l names level o =
    chain_before l o
    ++ (if is_enabled l names level then all_chains o (called_handlers l names) else [])

-- Neither the logger nor a parent of it has handlers of its own or keeps its lines to itself.
abbrev pub IsPlain : Logging → List String → Type 0
IsPlain l names = All (λ n. (l.own_handlers n ≡ []) × (l.propagates n ≡ true)) names

called_handlers_plain :
    (settings : Settings) (l : Logging) (names : List String)
    → IsPlain l names
    → called_handlers (configure_logging settings l) names ≡ (configure_logging settings l).handlers
unfolding configure_logging
called_handlers_plain settings l [] plain = refl
called_handlers_plain settings l (n ∷ names) ((none_own, on), plain) =
    rw (none_own, on) (called_handlers_plain settings l names plain)

rendered :
    (b : Bool)
    → keep is_renderer ((if b then console_renderer true else json_renderer) ∷ [])
      ≡ (if b then console_renderer true else json_renderer) ∷ []
rendered true = refl
rendered false = refl

rendered_by :
    (settings : Settings) (l : Logging) (o : Origin)
    → keep is_renderer (
        chain_before (configure_logging settings l) o
        ++ all_chains o (configure_logging settings l).handlers)
      ≡ (if is_local settings.environment then console_renderer true else json_renderer) ∷ []
unfolding configure_logging
rendered_by settings l from_structlog = rendered (is_local settings.environment)
rendered_by settings l from_library = rendered (is_local settings.environment)

not_rendered :
    (settings : Settings) (l : Logging) (o : Origin)
    → keep is_renderer (chain_before (configure_logging settings l) o ++ []) ≡ []
unfolding configure_logging
not_rendered settings l from_structlog = refl
not_rendered settings l from_library = refl

-- After the configuration, each line, of structlog or of a library, that its logger is enabled for is
-- rendered exactly once, in colours for the console in the environment `local` and as JSON in the
-- others, and each other line not at all: for every logger without handlers of its own that propagates, as
-- do its parents.
pub rendered_once :
    (settings : Settings) (l : Logging) (names : List String) (level : ℕ) (o : Origin)
    → IsPlain l names
    → keep is_renderer (passed (configure_logging settings l) names level o) ≡ (
        if is_enabled (configure_logging settings l) names level
        then (if is_local settings.environment then console_renderer true else json_renderer) ∷ []
        else [])
rendered_once settings l names level o plain =
    elim (Bool-cases (is_enabled (configure_logging settings l) names level)) [
      | inl on ↦ rw (on, called_handlers_plain settings l names plain) (rendered_by settings l o)
      | inr off ↦ rw off (not_rendered settings l o)
    ]

noisy_test :
    (n : String) (b c d : Bool) (k : ℕ)
    → (if d then warning_level else if c then warning_level else if b then warning_level else k)
      ≡ (if b || (c || (d || false)) then warning_level else k)
noisy_test n b c d k = ground arith

noisy_level :
    (n : String) (levels : String → ℕ)
    → set_levels noisy_loggers levels n ≡ (if is_noisy n then warning_level else levels n)
noisy_level n levels =
    noisy_test n (str_eq n "uvicorn.access") (str_eq n "httpx") (str_eq n "httpcore") (levels n)

-- Where no levels were set before: after the configuration, the level of a logger that is one of the noisy
-- ones, or below one of them, is WARNING, and that of every other logger INFO.
pub effective_level-configure_logging :
    (settings : Settings) (l : Logging) (names : List String)
    → ((n : String) → l.levels n ≡ 0)
    → effective_level (configure_logging settings l) names
      ≡ (if any is_noisy names then warning_level else info_level)
unfolding configure_logging
effective_level-configure_logging settings l [] unset = refl
effective_level-configure_logging settings l (n ∷ names) unset = elim (Bool-cases (is_noisy n)) [
  | inl e ↦ rw (noisy_level n l.levels, e) refl
  | inr e ↦
      rw (noisy_level n l.levels, e, unset n)
        (effective_level-configure_logging settings l names unset)
]

twice :
    (b : Bool) (k : ℕ)
    → (if b then warning_level else if b then warning_level else k)
      ≡ (if b then warning_level else k)
twice b k = ground arith

-- A second call changes nothing.
pub configure_logging_idempotent :
    (settings : Settings) (l : Logging)
    → configure_logging settings (configure_logging settings l) ≡ configure_logging settings l
unfolding configure_logging
configure_logging_idempotent settings l =
    ap (λ levels. record (configure_logging settings l) { levels = levels })
      (fun_ext λ n.
        noisy_level n (set_levels noisy_loggers l.levels)
        ∙ ap (λ k. if is_noisy n then warning_level else k) (noisy_level n l.levels)
        ∙ twice (is_noisy n) (l.levels n)
        ∙ sym (noisy_level n l.levels))
