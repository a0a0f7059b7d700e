-- ===== src/Answering/Conversation.antt =====
-- The thread that goes into the prompt: backend/app/features/generation/answering/conversation.py.
use mathlib.Core.List.{reverse}
use zenith_enterprise.Common.{
  ℕ, ◌-◌, List, [], ◌∷◌, ◌++◌, leb, if◌then◌else◌, length, map, take, drop,
}
use zenith_enterprise.Common.Text.{Text, codes, strip, is_space, drop_while, join}

pub record Turn : Type 0 where
  pub question : Text
  pub answer : Text

abbrev max_turns : ℕ
max_turns = 6

abbrev max_answer_characters : ℕ
max_answer_characters = 600

abbrev max_question_characters : ℕ
max_question_characters = 400

-- `text.rstrip()`
abbrev rstrip : Text → Text
rstrip text = reverse (drop_while is_space (reverse text))

-- The last character is an ellipsis.
abbrev pub clip : Text → ℕ → Text
clip text limit =
    let stripped = strip text in
    if leb (length stripped) limit then stripped else rstrip (take limit stripped) ++ 8230 ∷ []

abbrev clip_turn : Turn → Turn
clip_turn turn = record {
  question = clip turn.question max_question_characters;
  answer = clip turn.answer max_answer_characters;
}

-- The turns of the `Thread`.
abbrev pub bounded : List Turn → List Turn
bounded turns = map clip_turn (drop (length turns - max_turns) turns)

abbrev rendered_turn : Turn → Text
rendered_turn turn = codes "User: " ++ (turn.question ++ (codes "\nAssistant: " ++ turn.answer))

-- `rendered` of the `Thread`
abbrev pub rendered : List Turn → Text
rendered turns = join (10 ∷ 10 ∷ []) (map rendered_turn turns)
