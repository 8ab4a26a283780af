-- ===== src/Lobby/Context.antt =====
-- embers/lobby/context.py: the namespace of a board.
use embers_diaries.Prelude.{String, not, Option, ◌==◌, if◌then◌else◌, get_or}
use embers_diaries.Lobby.Store.{TextMethods}

-- `resolve_namespace`. A session, if there is one, comes as its namespace.
unfoldable pub resolve_namespace :
    ⦃text : TextMethods⦄ → Option String → Option String → String → String
resolve_namespace ⦃text = text⦄ explicit session fallback =
    let named = text.strip (get_or explicit "") in
    let from_session = text.strip (get_or session "") in
    let last = text.strip fallback in
    if not (named == "")
    then named
    else if not (from_session == "")
    then from_session
    else if not (last == "")
    then last
    else "default"
