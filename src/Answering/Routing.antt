-- ===== src/Answering/Routing.antt =====
-- Does a message need the documents: backend/app/features/generation/answering/routing.py. The model
-- is an argument, and `none` is an exception.
use zenith_enterprise.Common.{
  ℕ, Bool, Option, none, some, List, [], ◌∷◌, ◌++◌, ◌==◌, ◌||◌, if◌then◌else◌, length, drop,
}
use mathlib.Core.List.{reverse}
use zenith_enterprise.Common.Text.{
  Text, codes, strip, upper, starts_with, is_empty, drop_while, join,
}
use zenith_enterprise.Answering.Conversation.{Turn, rendered}

-- `GenerationResponse`: the text, the model that wrote it, and its tokens where they are known.
pub record Completion : Type 0 where
  pub text : Text
  pub model : Text
  pub prompt_tokens : Option ℕ
  pub completion_tokens : Option ℕ

abbrev pub Model : Type 0
Model = Text → Text → Option Completion

-- `CHAT` and `SEARCH_PREFIX`
abbrev pub chat : Text
chat = codes "CHAT"

abbrev pub search_prefix : Text
search_prefix = codes "SEARCH:"

-- `SYSTEM`
abbrev pub system : Text
system = join (10 ∷ []) (
    codes "You prepare a user's message for a document search system."
    ∷ codes ""
    ∷ codes "Read the conversation, then the new message, and reply with exactly one line."
    ∷ codes ""
    ∷ codes
        "If the new message can be answered using only the conversation above — it asks what was"
    ∷ codes
        "said, what the user asked before, or asks you to rephrase, shorten, translate or explain"
    ∷ codes "your own previous answer, or it is a greeting or small talk — reply with exactly:"
    ∷ codes "CHAT"
    ∷ codes ""
    ∷ codes "Otherwise the message needs the documents. Reply with:"
    ∷ codes "SEARCH: <the message rewritten so it makes sense on its own>"
    ∷ codes ""
    ∷ codes
        "When rewriting, replace words like \"it\", \"that\", \"the second one\" with what they refer to"
    ∷ codes
        "in the conversation. Keep the user's wording everywhere else. If the message already makes"
    ∷ codes "sense on its own, repeat it unchanged."
    ∷ codes ""
    ∷ codes "Reply with one line and nothing else. Never explain your choice."
    ∷ [])

-- `Intent`: a search query, or none for a turn about the conversation.
pub record Intent : Type 0 where
  pub query : Option Text

abbrev pub grounded : Text → Intent
grounded query = record { query = some query }

abbrev pub conversational : Intent
conversational = record { query = none }

-- Where `splitlines` ends a line.
abbrev is_line_end : ℕ → Bool
is_line_end c =
    c == 10
    || c == 11
    || c == 12
    || c == 13
    || c == 28
    || c == 29
    || c == 30
    || c == 133
    || c == 8232
    || c == 8233

abbrev pub first_line : Text → Text
first_line [] = []
first_line (c ∷ text) = let rest = first_line text in if is_line_end c then [] else c ∷ rest

-- `text.strip('"')`
abbrev unquoted : Text → Text
unquoted text = reverse (drop_while (λ c. c == 34) (reverse (drop_while (λ c. c == 34) text)))

abbrev pub or_message : Text → Text → Text
or_message query message = if is_empty query then message else query

-- `_read`
unfoldable pub read_reply : Text → Text → Intent
read_reply reply message =
    let first = strip (first_line reply) in
    if starts_with chat (upper first)
    then conversational
    else if starts_with search_prefix (upper first)
    then grounded
        (or_message (strip (unquoted (strip (drop (length search_prefix) first)))) message)
    else grounded message

abbrev pub routed : Option Completion → Text → Intent
routed none message = grounded message
routed (some c) message = read_reply (strip c.text) message

-- `resolve`
abbrev pub resolve : List Turn → Text → Model → Intent
resolve [] message complete = grounded message
resolve (turn ∷ turns) message complete =
    routed
      (complete system (
        codes "Conversation:\n\n"
        ++ (rendered (turn ∷ turns)
            ++ (codes "\n\nNew message: " ++ (message ++ codes "\n\nReply:")))))
      message
