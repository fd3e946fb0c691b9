-- ===== src/Handler/Access.antt =====
-- relay/internal/server/server.go: what a request may do, with and without the bearer.
use httpssh.Base.{
  ◌≡◌, ◌⊎◌, false≢true, str_eq_iff, has_prefix-append, inl, inr, refl, ap, ◌∙◌, sym, subst, true,
  false, not, ◌||◌, Bool-cases, if_cases, Option, none, some, [], ◌∷◌, ◌++◌, Text, codes, str_eq,
  has_prefix, drop,
}
use httpssh.Http.{Response, failed}
use httpssh.Manager.{Manager}
use httpssh.Auth.{middleware, evaluate}
use httpssh.Auth.Gate.{middleware_gate}
use httpssh.Server.{Reply, ApiCall}
use httpssh.Server.Routes.{HasAccess, IsStep, api_mux-IsStep, has_no_access}
use httpssh.Auth.Gate.{evaluate_iff}
use httpssh.Handler.{
  HttpRequest, Host, Resource, segments, resource_of, call_at, run_call, run_resource, serve_api,
  credentials_of, Answer, api_answer, web_file, root_answer, api_prefix, web_prefix, as_answer,
  handler,
}

run_resource-IsStep :
    (h : Host) (m : Manager) (r : HttpRequest) (o : Option Resource)
    → IsStep m (run_resource h m r o).0
unfolding run_resource
run_resource-IsStep h m r none = inl refl
run_resource-IsStep h m r (some x) = run_call-IsStep (call_at h r x)
  where
    run_call-IsStep : (o : Option ApiCall) → IsStep m (run_call m o).0
    run_call-IsStep none = unfold run_call in inl refl
    run_call-IsStep (some call) = unfold run_call in api_mux-IsStep m call

serve_api-IsStep : (h : Host) (m : Manager) (r : HttpRequest) → IsStep m (serve_api h m r).0
unfolding serve_api
serve_api-IsStep h m r = run_resource-IsStep h m r (resource_of (drop 2 (segments r.path)))

-- What may be answered without the bearer: the refusal, a file of the web client, a redirect or an error.
abbrev pub IsPublic : Answer → Type 0
IsPublic (api_answer a) =
    a ≡ failed 401 (codes "unauthorized") (codes "missing or invalid credentials")
IsPublic (web_file path) = has_prefix path web_prefix ≡ true
IsPublic (root_answer a) = Unit {0}

-- What a request comes to.
abbrev pub IsHandled : Text → Manager → HttpRequest → Manager × Answer → Type 0
IsHandled lan_bearer m r (n, a) =
    ((has_prefix r.path api_prefix ≡ true) × HasAccess lan_bearer (credentials_of r) × IsStep m n)
    ⊎ ((n ≡ m) × IsPublic a)

module _ (lan_bearer : Text) (h : Host) (m : Manager) (r : HttpRequest) where
  gated-IsHandled :
      has_prefix r.path api_prefix ≡ true
      → IsHandled lan_bearer m r
          (as_answer (middleware lan_bearer (λ n c. serve_api h n r) m (credentials_of r)))
  gated-IsHandled under =
      let gate = middleware_gate lan_bearer (λ n c. serve_api h n r) m (credentials_of r) in
      elim (Bool-cases (evaluate lan_bearer (credentials_of r)).0) [
        | inl e ↦
            let access = (evaluate_iff lan_bearer (credentials_of r)).0 e in
            inl (
              under,
              access,
              subst (λ (x : Manager × Response Reply). IsStep m x.0) (sym (gate.0 access))
                  (serve_api-IsStep h m r),
            )
        | inr e ↦
            let refused = gate.1 (has_no_access lan_bearer (credentials_of r) e) in
            inr (
              ap (λ (x : Manager × Response Reply). x.0) refused,
              ap (λ (x : Manager × Response Reply). x.1) refused,
            )
      ]

-- A request acts on the sessions only if it is one under `/api/` that presents the bearer, and then as
-- at most one step of the manager. Any other changes nothing, and is answered with what is public: the
-- refusal 401, a file under `/web/`, a redirect, or an error of the root.
pub handler-IsHandled :
    (clean_path : Text → Text) (lan_bearer : Text) (h : Host) (m : Manager) (r : HttpRequest)
    → IsHandled lan_bearer m r (handler clean_path lan_bearer h m r)
unfolding handler
handler-IsHandled clean_path lan_bearer h m r =
    let P = IsHandled lan_bearer m r in
    let path : Text = clean_path r.path in
    if_cases P (str_eq (path ++ codes "/") api_prefix || str_eq (path ++ codes "/") web_prefix) _ _
      (λ _. inr (refl, tt))
      (λ _.
        if_cases P (not (str_eq path r.path)) _ _ (λ _. inr (refl, tt))
          (λ _.
            if_cases P (has_prefix r.path api_prefix) _ _ (gated-IsHandled lan_bearer h m r) (λ _.
              if_cases P (has_prefix r.path web_prefix) _ _ (λ w. inr (refl, w))
                (λ _. inr (refl, tt)))))

no_tree :
    (rest : Text)
    → (str_eq ((api_prefix ++ rest) ++ codes "/") api_prefix
        || str_eq ((api_prefix ++ rest) ++ codes "/") web_prefix)
      ≡ false
unfolding str_eq
no_tree [] = refl
no_tree (x ∷ rest) = refl

-- A clean path below `/api/` reaches the handlers of the API if the bearer is presented.
pub handler_api :
    (clean_path : Text → Text) (lan_bearer : Text) (h : Host) (m : Manager) (r : HttpRequest)
    (rest : Text)
    → r.path ≡ api_prefix ++ rest
    → clean_path r.path ≡ r.path
    → HasAccess lan_bearer (credentials_of r)
    → handler clean_path lan_bearer h m r ≡ as_answer (serve_api h m r)
unfolding handler
handler_api clean_path lan_bearer h m r rest at clean access =
    let P : Manager × Answer → Type 0 = λ x. x ≡ as_answer (serve_api h m r) in
    let path : Text = clean_path r.path in
    let under : path ≡ api_prefix ++ rest = clean ∙ at in
    if_cases P (str_eq (path ++ codes "/") api_prefix || str_eq (path ++ codes "/") web_prefix) _ _
      (λ t. absurd (false≢true (sym (below under) ∙ t)))
      (λ _.
        if_cases P (not (str_eq path r.path)) _ _
          (λ t. absurd (false≢true (sym (ap not ((str_eq_iff path r.path).1 clean)) ∙ t)))
          (λ _.
            if_cases P (has_prefix r.path api_prefix) _ _
              (λ _. ap as_answer (
                (middleware_gate lan_bearer (λ n c. serve_api h n r) m (credentials_of r)).0
                  access))
              (λ t. absurd (false≢true (sym t ∙ prefixed at)))))
  where
    below :
        {p : Text}
        → p ≡ api_prefix ++ rest
        → (str_eq (p ++ codes "/") api_prefix || str_eq (p ++ codes "/") web_prefix) ≡ false
    below e =
        ap (λ (q : Text). str_eq (q ++ codes "/") api_prefix || str_eq (q ++ codes "/") web_prefix)
          e
        ∙ no_tree rest

    prefixed : {p : Text} → p ≡ api_prefix ++ rest → has_prefix p api_prefix ≡ true
    prefixed e = ap (λ (q : Text). has_prefix q api_prefix) e ∙ has_prefix-append api_prefix rest
