-- ===== src/App/Verbs.antt =====
-- app.go: the verb methods `Get`, `Post`, `Put`, `Patch` and `Delete`.
use grpc_composition.Common.{ℕ, List, Text, codes, Result}
use grpc_composition.Host.{Host}
use grpc_composition.Globals.{Binder, ResponseType}
use grpc_composition.Route.{UnaryMethod}
use grpc_composition.Patterns.{Panic}
use grpc_composition.App.{App, Router, handle_verb}

module _ (H : Host) (X : Router H) {Req Resp : Type 0} (t : ResponseType H Resp) (zero_req : Req)
    (pattern_text : Text) (method : UnaryMethod H Req Resp) (binders : List (Binder H Req)) where
  -- `Get`.
  unfoldable pub get : App H → Result Panic (App H × ℕ)
  unfolding handle_verb
  get a = handle_verb H X t zero_req (codes "GET") pattern_text method binders a

  -- `Post`.
  unfoldable pub post : App H → Result Panic (App H × ℕ)
  unfolding handle_verb
  post a = handle_verb H X t zero_req (codes "POST") pattern_text method binders a

  -- `Put`.
  unfoldable pub put : App H → Result Panic (App H × ℕ)
  unfolding handle_verb
  put a = handle_verb H X t zero_req (codes "PUT") pattern_text method binders a

  -- `Patch`.
  unfoldable pub patch : App H → Result Panic (App H × ℕ)
  unfolding handle_verb
  patch a = handle_verb H X t zero_req (codes "PATCH") pattern_text method binders a

  -- `Delete`.
  unfoldable pub delete : App H → Result Panic (App H × ℕ)
  unfolding handle_verb
  delete a = handle_verb H X t zero_req (codes "DELETE") pattern_text method binders a
