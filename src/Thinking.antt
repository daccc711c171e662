-- ===== src/Thinking.antt =====
-- src/core/thinking.ts: the thinking levels that a model supports.
use pi_multi_orchestrator.Prelude.{
  ◌≡◌, ◌↔◌, Bool, true, false, not, Option, none, some, List, [], ◌∷◌, filter, any, arith,
}

pub data ExplicitThinkingEffort : Type 0 where
  low medium high xhigh max_effort : ExplicitThinkingEffort

pub data ThinkingEffort : Type 0 where
  auto : ThinkingEffort
  explicit : ExplicitThinkingEffort → ThinkingEffort

pub data ThinkingSupport : Type 0 where
  supported not_supported unknown : ThinkingSupport

-- An entry of the level map: absent, `null`, or the provider's name of the level.
pub data MappedLevel : Type 0 where
  absent null_level named_level : MappedLevel

-- `reasoning` and `thinkingLevelMap`; a missing map has every entry absent.
pub record ThinkingModelMetadata : Type 0 where
  pub reasoning : Option Bool
  pub level_map : Option (ExplicitThinkingEffort → MappedLevel)

unfoldable pub thinking_support : ThinkingModelMetadata → ThinkingSupport
thinking_support model = support_of model.reasoning
  where
    support_of : Option Bool → ThinkingSupport
    support_of (some true) = supported
    support_of (some false) = not_supported
    support_of none = unknown

abbrev pub thinking_efforts : List ExplicitThinkingEffort
thinking_efforts = low ∷ medium ∷ high ∷ xhigh ∷ max_effort ∷ []

abbrev pub mapped :
    Option (ExplicitThinkingEffort → MappedLevel) → ExplicitThinkingEffort → MappedLevel
mapped none level = absent
mapped (some levels) level = levels level

-- `xhigh` and `max` have to be in the map.
abbrev pub needs_entry : ExplicitThinkingEffort → Bool
needs_entry xhigh = true
needs_entry max_effort = true
needs_entry _ = false

abbrev pub level_kept : MappedLevel → (needs : Bool) → Bool
level_kept null_level needs = false
level_kept absent needs = not needs
level_kept named_level needs = true

abbrev pub efforts_of :
    Option Bool → Option (ExplicitThinkingEffort → MappedLevel) → List ExplicitThinkingEffort
efforts_of (some true) levels =
    filter (λ level. level_kept (mapped levels level) (needs_entry level)) thinking_efforts
efforts_of _ levels = []

unfoldable pub supported_thinking_efforts : ThinkingModelMetadata → List ExplicitThinkingEffort
supported_thinking_efforts model = efforts_of model.reasoning model.level_map

abbrev pub same_effort : ExplicitThinkingEffort → ExplicitThinkingEffort → Bool
same_effort low low = true
same_effort medium medium = true
same_effort high high = true
same_effort xhigh xhigh = true
same_effort max_effort max_effort = true
same_effort _ _ = false

unfoldable pub is_supported_thinking_effort : ThinkingModelMetadata → ThinkingEffort → Bool
unfolding supported_thinking_efforts
is_supported_thinking_effort model auto = true
is_supported_thinking_effort model (explicit e) =
    any (λ level. same_effort level e) (supported_thinking_efforts model)

-- An explicit level is supported exactly by a reasoning model whose map does not send it to `null`
-- and, for `xhigh` and `max`, names it.
pub is_supported_thinking_effort_iff :
    (reasoning : Option Bool) (levels : Option (ExplicitThinkingEffort → MappedLevel))
    (e : ExplicitThinkingEffort)
    → (is_supported_thinking_effort
          (record { reasoning = reasoning; level_map = levels })
          (explicit e)
        ≡ true)
      ↔ (reasoning ≡ some true) × (level_kept (mapped levels e) (needs_entry e) ≡ true)
unfolding is_supported_thinking_effort
is_supported_thinking_effort_iff (some true) levels low = ground arith
is_supported_thinking_effort_iff (some true) levels medium = ground arith
is_supported_thinking_effort_iff (some true) levels high = ground arith
is_supported_thinking_effort_iff (some true) levels xhigh = ground arith
is_supported_thinking_effort_iff (some true) levels max_effort = ground arith
is_supported_thinking_effort_iff (some false) levels e = (λ h. cc, λ (h, k). cc)
is_supported_thinking_effort_iff none levels e = (λ h. cc, λ (h, k). cc)
