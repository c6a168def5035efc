-- ===== src/Agent/Approvers/Http.antt =====
-- agent/hitl_http.go: what a service must answer for its approval.
use deepagent.Base.{
  ◌≡◌, ◌↔◌, inl, inr, refl, ap, subst, arith, true, Option, none, some, Bool-cases,
}
use deepagent.Base.Text.{Str, lit, trim_space}
use deepagent.Agent.Types.{Result, ok, err, ApprovalRequest}
use deepagent.Base.Http.{HttpResponse, is_success}
use deepagent.Agent.Approvers.{
  Answer, HttpApproverConfig, ApprovalResponse, Net, request_to, is_approval, normal, decide,
  decoded, answered, received, sent, posted, http_approver,
}

module _ {W : Type 0} (net : Net W) where
  decide-none :
      (out : ApprovalResponse)
      → (decide net out).1 ≡ none
      → is_approval (normal net out.decision) ≡ true
  unfolding decide
  decide-none out h = ground arith

  decide-approval :
      (out : ApprovalResponse)
      → is_approval (normal net out.decision) ≡ true
      → decide net out ≡ (lit "approved", none)
  unfolding decide
  decide-approval out h = rw h

  -- The response is one by which the service approves.
  abbrev pub Approving : HttpResponse → Type 0
  Approving resp =
      (out : ApprovalResponse) × (is_success resp.status_code ≡ true)
      × (net.decode resp.body ≡ ok out)
      × (is_approval (normal net out.decision) ≡ true)

  decoded-none :
      (d : Result ApprovalResponse)
      → (decoded net d).1 ≡ none
      → (out : ApprovalResponse) × (d ≡ ok out) × (is_approval (normal net out.decision) ≡ true)
  decoded-none (err e) h = cc
  decoded-none (ok out) h = (out, refl, decide-none out h)

  answered-none : (resp : HttpResponse) → (answered net resp).1 ≡ none → Approving resp
  answered-none resp h = elim (Bool-cases (is_success resp.status_code)) [
    | inl good ↦
        let (out, read, yes_word) = decoded-none (net.decode resp.body) (rw good at h) in
        (out, good, read, yes_word)
    | inr bad ↦ cc (rw bad at h)
  ]

  answered-Approving :
      (resp : HttpResponse) → Approving resp → answered net resp ≡ (lit "approved", none)
  answered-Approving resp (out, good, read, yes_word) =
      rw (good, read) (decide-approval out yes_word)

  module _ (cfg : HttpApproverConfig) where
    -- The service was asked, and approved.
    abbrev pub Consents : ApprovalRequest → W → Type 0
    Consents question w =
        (body : Str) × (resp : HttpResponse) × (net.marshal question ≡ ok body)
        × (net.valid_url (trim_space cfg.url) ≡ none)
        × ((net.send (request_to cfg (trim_space cfg.url) body) w).0 ≡ ok resp)
        × Approving resp

    received-none :
        (reply : Result HttpResponse × W)
        → (received net reply).0.1 ≡ none
        → (resp : HttpResponse) × (reply.0 ≡ ok resp) × Approving resp
    received-none (err e, w) h = cc
    received-none (ok resp, w) h = (resp, refl, answered-none resp h)

    sent-none :
        (url body : Str) (bad : Option Str) (w : W)
        → (sent net cfg url body bad w).0.1 ≡ none
        → (resp : HttpResponse) × (bad ≡ none)
          × ((net.send (request_to cfg url body) w).0 ≡ ok resp)
          × Approving resp
    sent-none url body (some e) w h = cc
    sent-none url body none w h =
        let (resp, came, good) = received-none (net.send (request_to cfg url body) w) h in
        (resp, refl, came, good)

    posted-none :
        (marshalled : Result Str) (w : W)
        → (posted net cfg (trim_space cfg.url) marshalled w).0.1 ≡ none
        → (body : Str) × (resp : HttpResponse) × (marshalled ≡ ok body)
          × (net.valid_url (trim_space cfg.url) ≡ none)
          × ((net.send (request_to cfg (trim_space cfg.url) body) w).0 ≡ ok resp)
          × Approving resp
    posted-none (err e) w h = cc
    posted-none (ok body) w h =
        let (resp, fine, came, good) =
          sent-none (trim_space cfg.url) body (net.valid_url (trim_space cfg.url)) w h in
        (body, resp, refl, fine, came, good)

    received-Approving :
        (reply : Result HttpResponse × W) (resp : HttpResponse)
        → reply.0 ≡ ok resp
        → Approving resp
        → (received net reply).0 ≡ (lit "approved", none)
    received-Approving (err e, w) resp came good = cc
    received-Approving (ok other, w) resp came good =
        let same : resp ≡ other = cc in answered-Approving other (subst Approving same good)

    http_approver-none :
        (question : ApprovalRequest) (w : W)
        → (http_approver net cfg question w).0.1 ≡ none
        → Consents question w
    unfolding http_approver
    http_approver-none question w = posted-none (net.marshal question) w

    http_approver-approved :
        (question : ApprovalRequest) (w : W)
        → Consents question w
        → (http_approver net cfg question w).0 ≡ (lit "approved", none)
    unfolding http_approver
    http_approver-approved question w (body, resp, written, fine, came, good) =
        rw (written, fine)
          (received-Approving (net.send (request_to cfg (trim_space cfg.url) body) w) resp came
            good)

    -- The approver returns no error exactly when the service was asked and approved: it answered
    -- with a status 2xx and a decision that reads, trimmed and in lower case, `approved`,
    -- `approve`, `ok`, `yes` or `y`. The decision is then `approved`.
    pub http_approver-Consents :
        (question : ApprovalRequest) (w : W)
        → ((http_approver net cfg question w).0.1 ≡ none ↔ Consents question w)
          × (((http_approver net cfg question w).0 ≡ (lit "approved", none)) ↔ Consents question w)
    http_approver-Consents question w = (
      (
        http_approver-none question w,
        λ c. ap (λ (a : Answer). a.1) (http_approver-approved question w c),
      ),
      (
        λ e. http_approver-none question w (ap (λ (a : Answer). a.1) e),
        http_approver-approved question w,
      ),
    )
