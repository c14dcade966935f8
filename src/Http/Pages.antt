-- ===== src/Http/Pages.antt =====
-- api.go: indexHandler and globalEventsHandler.
use sudo_service.Prelude.{List, [], ◌∷◌, ◌++◌, not, ◌&&◌, ltb, length, ◌===◌, if◌then◌else◌}
use sudo_service.Types.{SudoRequest, is_pending, is_unset, api, errorf, wrapf, Reply}
use sudo_service.Broadcaster.{Event}
use sudo_service.Effects.{M, return, on_reply}
use sudo_service.Http.Auth.{HumanClaims}
use sudo_service.Http.Message.{ApiServer, HttpRequest, Body, Response, IndexView, with_body, refuse}
use sudo_service.Http.Decide.{for_admin, requires_group}

-- The newest first. sort.Slice need not keep the order of equal times; this does.
unfoldable pub insert_newest : SudoRequest → List SudoRequest → List SudoRequest
insert_newest x [] = x ∷ []
insert_newest x (y ∷ ys) =
    let rest = insert_newest x ys in
    if ltb x.creation_timestamp y.creation_timestamp then y ∷ rest else x ∷ (y ∷ ys)

unfoldable pub newest_first : List SudoRequest → List SudoRequest
unfolding insert_newest
newest_first [] = []
newest_first (x ∷ xs) = insert_newest x (newest_first xs)

-- The loop of indexHandler, with the two lists of the view so far.
unfoldable pub sort_into :
    List SudoRequest → List SudoRequest → List SudoRequest → List SudoRequest × List SudoRequest
sort_into pending history [] = (pending, history)
sort_into pending history (sr ∷ rest) =
    sort_into (if is_pending sr.status.phase then pending ++ sr ∷ [] else pending)
      (if not (is_pending sr.status.phase)
          && not (is_unset sr.status.phase)
          && ltb (length history) 20
        then history ++ sr ∷ []
        else history)
      rest

unfoldable pub index_view : HumanClaims → List SudoRequest → IndexView
unfolding newest_first sort_into
index_view claims items =
    let lists = sort_into [] [] (newest_first items) in
    record {
      user = claims.preferred_username;
      user_email = claims.email;
      pending = lists.0;
      history = lists.1;
    }

unfoldable pub index_handler : ApiServer → Reply (List SudoRequest) → HttpRequest → M Response
unfolding index_view
index_handler s listing r =
    if not (r.path === "/")
    then refuse 404 (errorf "404 page not found" [])
    else for_admin s r (requires_group s) λ claims.
      on_reply listing (λ items. return (with_body 200 (Body.index_page (index_view claims items))))
        (λ e. refuse 500 (wrapf "list requests: %w" [] (api e)))

-- Every event of the channel, until the client goes away.
unfoldable pub global_events_handler : ApiServer → List Event → HttpRequest → M Response
global_events_handler s channel r =
    if not r.flushes
    then refuse 500 (errorf "streaming unsupported" [])
    else for_admin s r (requires_group s) λ claims. return (with_body 200 (Body.events channel))
