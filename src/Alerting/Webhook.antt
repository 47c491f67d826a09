-- ===== src/Alerting/Webhook.antt =====
-- `SendAlert` of server/core/alerting/webhook_client.go, which the goroutines of `SendAlertAsync`
-- call. The HTTP client, the JSON encoder and the form of times are parameters.
use iot_server.Base.{
  ℕ, ◌<◌, ◌≡◌, ◌⊎◌, Bool, not, Option, none, some, [], ◌∷◌, ◌++◌, leb, arith, inl, inr, Bool-cases,
  Option-cases, if◌then◌else◌,
}
use iot_server.Base.Text.{Bytes, utf8, bytes_eq, bytes_eq_iff}
use iot_server.Alerting.Rules.{AlertEvent, severity_critical}

pub record WebhookPayload : Type 0 where
  pub text : Bytes
  pub content : Bytes
  pub alert : AlertEvent
  pub generated_at : ℕ

-- What is outside: json.Marshal, whether http.NewRequest takes the URL, time.Unix(t,
-- 0).Format(time.RFC3339) and `httpClient.Do` on the URL, the content type and the body of a POST,
-- which gives the status code.
pub record WebhookSurroundings (W : Type 0) : Type 0 where
  pub marshal : WebhookPayload → Option Bytes
  pub is_url : Bytes → Bool
  pub rfc3339 : ℕ → Bytes
  pub do_post : Bytes → Bytes → Bytes → W → W × Option ℕ

-- The errors of `SendAlert`.
pub data WebhookError : Type 0 where
  not_marshalled : WebhookError
  bad_url : WebhookError
  not_reached : WebhookError
  responded : ℕ → WebhookError

abbrev newline : Bytes
newline = 10 ∷ []

-- U+FE0F, which makes the sign before it an icon.
abbrev variation_selector : Bytes
variation_selector = 0xef ∷ 0xb8 ∷ 0x8f ∷ []

unfoldable pub icon : AlertEvent → Bytes
icon alert =
    if bytes_eq alert.severity severity_critical then utf8 "🚨" else utf8 "⚠" ++ variation_selector

unfoldable pub formatted_msg : (ℕ → Bytes) → AlertEvent → Bytes
formatted_msg rfc3339 alert =
    icon alert
    ++ utf8 " **["
    ++ alert.severity
    ++ utf8 "] "
    ++ alert.title
    ++ utf8 "**"
    ++ newline
    ++ utf8 "- **Device**: `"
    ++ alert.device_id
    ++ utf8 "`"
    ++ newline
    ++ utf8 "- **Details**: "
    ++ alert.message
    ++ newline
    ++ utf8 "- **Time**: "
    ++ rfc3339 alert.timestamp

abbrev pub webhook_payload : (ℕ → Bytes) → ℕ → AlertEvent → WebhookPayload
webhook_payload rfc3339 now alert = record {
  text = formatted_msg rfc3339 alert;
  content = formatted_msg rfc3339 alert;
  alert = alert;
  generated_at = now;
}

module _ {W : Type 0} (s : WebhookSurroundings W) where
  -- `none` is a nil error.
  unfoldable pub send_alert : Bytes → ℕ → AlertEvent → W → W × Option WebhookError
  send_alert webhook_url now alert w =
      if bytes_eq webhook_url []
      then (w, none)
      else elim (s.marshal (webhook_payload s.rfc3339 now alert)) [
        | none ↦ (w, some not_marshalled)
        | some body ↦
            if not (s.is_url webhook_url)
            then (w, some bad_url)
            else let (w', resp) = s.do_post webhook_url (utf8 "application/json") body w in
              elim resp [
                | none ↦ (w', some not_reached)
                | some status_code ↦
                    if leb 400 status_code then (w', some (responded status_code)) else (w', none)
              ]
      ]

  -- The post that a successful call has made.
  pub record IsPosted (webhook_url : Bytes) (now : ℕ) (alert : AlertEvent) (w w' : W) : Type 0 where
    pub body : Bytes
    pub status_code : ℕ
    pub marshalled : s.marshal (webhook_payload s.rfc3339 now alert) ≡ some body
    pub answered : s.do_post webhook_url (utf8 "application/json") body w ≡ (w', some status_code)
    pub succeeded : status_code < 400

  -- No error is reported for an alert only if there is no webhook, and then nothing is sent, or if
  -- the alert was posted, in one request, and answered with a status below 400.
  pub send_alert-succeeds :
      (webhook_url : Bytes) (now : ℕ) (alert : AlertEvent) (w : W)
      → (send_alert webhook_url now alert w).1 ≡ none
      → ((webhook_url ≡ []) × ((send_alert webhook_url now alert w).0 ≡ w))
        ⊎ IsPosted webhook_url now alert w (send_alert webhook_url now alert w).0
  unfolding send_alert
  send_alert-succeeds webhook_url now alert w h = elim (Bool-cases (bytes_eq webhook_url [])) [
    | inl e ↦ inl ((bytes_eq_iff webhook_url []).0 e, ground (arith, e))
    | inr set ↦ elim (Option-cases (s.marshal (webhook_payload s.rfc3339 now alert))) [
      | inl m ↦ absurd (ground (arith, h, set, m))
      | inr (body, m) ↦ elim (Bool-cases (s.is_url webhook_url)) [
        | inr bad ↦ absurd (ground (arith, h, set, m, bad))
        | inl good ↦
            elim (Option-cases (s.do_post webhook_url (utf8 "application/json") body w).1) [
              | inl r ↦ absurd (ground (arith, h, set, m, good, r))
              | inr (status, r) ↦ inr (record {
                body = body;
                status_code = status;
                marshalled = m;
                answered = ground (arith, h, set, m, good, r);
                succeeded = ground (arith, h, set, m, good, r);
              })
            ]
      ]
    ]
  ]
