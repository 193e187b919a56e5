-- ===== src/Gate/Messages.antt =====
-- services/realtime-audio/command/gate.go: the messages of a command's result.
use Prim.Native.String.{◌++◌ as ◌<>◌}
use xe6_tsy.Common.{
  ℕ, Bool, true, false, not, ◌&&◌, ◌||◌, Option, none, some, String, List, [], ◌∷◌, if◌then◌else◌,
  ltb, leb, length, codes, str_eq, is_blank,
}
use xe6_tsy.Contract.Mode.{interpretation, ModeSwitchStatus, unchanged, mode_eq}
use xe6_tsy.Languages.Validate.{OutputMode, single}
use xe6_tsy.Gate.{ResultStatus, clarification_required, unsupported, failed}
use xe6_tsy.Gate.Registry.{assistant_query, action_eq, Command}

pub record AppliedLanguageConfig : Type 0 where
  pub source_language : String
  pub target_language : String
  pub output_mode : OutputMode

-- Of the mode's state, what the result event takes.
pub record ExecutionResult : Type 0 where
  pub status : ModeSwitchStatus
  pub runtime_instance_id : String
  pub generation : ℕ  -- int64
  pub language_config : Option AppliedLanguageConfig

-- The first error of the executor that `errors.Is` finds, in the order in which it is asked.
pub data ExecuteError : Type 0 where
  execution_interrupted delivery_target_required needs_clarification not_supported : ExecuteError
  other_error : ExecuteError

abbrev pub language_names : List (String × String)
language_names =
    ("zh-CN", "中文")
    ∷ ("en-US", "英语")
    ∷ ("ja-JP", "日语")
    ∷ ("ko-KR", "韩语")
    ∷ ("fr-FR", "法语")
    ∷ ("de-DE", "德语")
    ∷ ("ru-RU", "俄语")
    ∷ ("pt-BR", "葡萄牙语")
    ∷ ("it-IT", "意大利语")
    ∷ ("es-ES", "西班牙语")
    ∷ []

abbrev pub name_in : List (String × String) → String → String
name_in [] code = code
name_in ((key, name) ∷ rest) code = if str_eq key code then name else name_in rest code

unfoldable pub spoken_language_name : String → String
spoken_language_name code = name_in language_names code

abbrev pub is_single : OutputMode → Bool
is_single single = true
is_single _ = false

abbrev pub is_unchanged : ModeSwitchStatus → Bool
is_unchanged unchanged = true
is_unchanged _ = false

unfoldable pub language_message : AppliedLanguageConfig → String
language_message c =
    let source = spoken_language_name c.source_language in
    let target = spoken_language_name c.target_language in
    if is_single c.output_mode
    then "已开启" <> source <> "译" <> target <> "单向传译，" <> target <> "播报，" <> source <> "译文自动投递"
    else "已设置为" <> source <> "和" <> target <> "同声传译"

-- The message where no language configuration was set.
unfoldable pub mode_message : Bool → Bool → String
mode_message is_interpretation is_same =
    if is_same
    then (if is_interpretation then "当前已是同声传译模式" else "当前已是通用助手模式")
    else if is_interpretation
    then "已进入同声传译模式"
    else "已返回通用助手模式"

unfoldable pub command_success_fallback : Command → ExecutionResult → String
command_success_fallback parsed execution =
    let is_interpretation = mode_eq parsed.target_mode interpretation in
    let message = mode_message is_interpretation (is_unchanged execution.status) in
    if action_eq parsed.action assistant_query
    then "助手已处理本轮提问"
    else elim execution.language_config [
      | none ↦ message
      | some config ↦ if is_interpretation then language_message config else message
    ]

-- Go's `unicode.IsControl`.
abbrev pub is_control : ℕ → Bool
is_control c = ltb c 32 || (leb 127 c && ltb c 160)

abbrev pub has_control : List ℕ → Bool
has_control [] = false
has_control (c ∷ cs) = is_control c || has_control cs

unfoldable pub valid_success_feedback : String → Bool
valid_success_feedback message =
    if is_blank message || ltb 80 (length (codes message))
    then false
    else not (has_control (codes message))

unfoldable pub execution_failure_feedback : Command → ExecuteError → ResultStatus × String
execution_failure_feedback parsed execution_interrupted = (failed, "回答已中断")
execution_failure_feedback parsed delivery_target_required = (failed, "请先设置可用的自动投递目标，再开启单向传译")
execution_failure_feedback parsed needs_clarification = (clarification_required, "请说明需要使用的语言方向")
execution_failure_feedback parsed not_supported = (unsupported, "当前不支持这个能力或参数")
execution_failure_feedback parsed other_error =
    if action_eq parsed.action assistant_query
    then (failed, "助手暂时无法回答，请重试")
    else (failed, "命令未执行，原模式保持不变")
