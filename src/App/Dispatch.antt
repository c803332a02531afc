-- ===== src/App/Dispatch.antt =====
-- `ServeHTTP` of the App, by what the router selects.
use grpc_composition.Common.{ℕ, ◌≡◌, refl, ◌∙◌, map, none, some, Text}
use grpc_composition.Std.Http.{Writer}
use grpc_composition.Host.{Host, Request}
use grpc_composition.Globals.{Globals}
use grpc_composition.Forward.{Metadata, forward_metadata}
use grpc_composition.App.{
  App, Router, Handler, Served, route_at, handler, get_elem?, call_target, mux_serve,
  app_serve_http,
}

module _ (H : Host) (X : Router H) (M : Metadata H) (a : App H) (g : Globals H) (w : Writer)
    (r : Request H) (s : H.Backend) where
  app_serve_http-selected :
      (i : ℕ) (r' : Request H)
      → X.select (map (λ e. e.0) a.mux) (forward_metadata M a.metadata_forward r) ≡ some (i, r')
      → app_serve_http H X M a g w r s ≡ call_target H X a (get_elem? a.mux i) g w r' s
  unfolding app_serve_http
  app_serve_http-selected i r' selected = rw (app_serve_http, mux_serve, selected) refl

  pub app_serve_http-route :
      (i k : ℕ) (p : Text) (rt : Served H) (r' : Request H)
      → X.select (map (λ e. e.0) a.mux) (forward_metadata M a.metadata_forward r) ≡ some (i, r')
      → get_elem? a.mux i ≡ some (p, route_at k)
      → get_elem? a.routes k ≡ some rt
      → app_serve_http H X M a g w r s ≡ rt.serve g w r' s
  unfolding call_target
  app_serve_http-route i k p rt r' selected registered there =
      app_serve_http-selected i r' selected ∙ rw (registered, call_target, there) refl

  pub app_serve_http-handler :
      (i : ℕ) (p : Text) (h : Handler H) (r' : Request H)
      → X.select (map (λ e. e.0) a.mux) (forward_metadata M a.metadata_forward r) ≡ some (i, r')
      → get_elem? a.mux i ≡ some (p, handler h)
      → app_serve_http H X M a g w r s ≡ h g w r' s
  unfolding call_target
  app_serve_http-handler i p h r' selected registered =
      app_serve_http-selected i r' selected ∙ rw registered refl

  pub app_serve_http-missing :
      (i : ℕ) (r' : Request H)
      → X.select (map (λ e. e.0) a.mux) (forward_metadata M a.metadata_forward r) ≡ some (i, r')
      → get_elem? a.mux i ≡ none
      → app_serve_http H X M a g w r s ≡ X.unmatched g w r' s
  unfolding call_target
  app_serve_http-missing i r' selected nothing =
      app_serve_http-selected i r' selected ∙ rw nothing refl
