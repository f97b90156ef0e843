-- ===== src/Wire/Admission.antt =====
-- Which greetings of a satellite pass `validate_protocol` (src/nova_voice/satellites/protocol.py).
use nova_voice.Base.{
  ◌≡◌, ◌↔◌, ◌⊎◌, inl, inr, refl, true, none, ◌==◌, eq_of_==, eq_iff, arith, Bool-cases,
}
use nova_voice.Wire.Frames.{protocol_version}
use nova_voice.Wire.Greeting.{
  Hello, Client, linux_native, macos_native, browser, ios_native, Supervisor, systemd, launchd,
  unsupervised, validate_protocol, supervisor_of, may_push_to_talk, Admissible,
}

module _ (h : Hello) (r : validate_protocol h ≡ none) where
  accepted-supervised :
      (c : Client) (s : Supervisor) → h.client ≡ c → h.supervisor ≡ s → s ≡ supervisor_of c
  unfolding validate_protocol
  accepted-supervised linux_native systemd p q = refl
  accepted-supervised linux_native launchd p q = ground arith
  accepted-supervised linux_native unsupervised p q = ground arith
  accepted-supervised macos_native launchd p q = refl
  accepted-supervised macos_native systemd p q = ground arith
  accepted-supervised macos_native unsupervised p q = ground arith
  accepted-supervised browser unsupervised p q = refl
  accepted-supervised browser systemd p q = ground arith
  accepted-supervised browser launchd p q = ground arith
  accepted-supervised ios_native unsupervised p q = refl
  accepted-supervised ios_native systemd p q = ground arith
  accepted-supervised ios_native launchd p q = ground arith

  accepted-captures :
      (c : Client)
      → h.client ≡ c
      → (h.capture_policy == "always" ≡ true)
        ⊎ ((h.capture_policy == "push-to-talk" ≡ true) × (may_push_to_talk c ≡ true))
  unfolding validate_protocol
  accepted-captures linux_native p = inl (ground arith)
  accepted-captures macos_native p = inl (ground arith)
  accepted-captures browser p = ground arith
  accepted-captures ios_native p = ground arith

  accepted-Admissible : Admissible h
  unfolding validate_protocol
  accepted-Admissible = record {
    versioned = ground arith;
    hears = ground arith;
    speaks = ground arith;
    supervised = accepted-supervised h.client h.supervisor refl refl;
    captures = elim (accepted-captures h.client refl) [
      | inl e ↦ inl (eq_of_== h.capture_policy "always" e)
      | inr (e, m) ↦ inr (eq_of_== h.capture_policy "push-to-talk" e, m)
    ];
    cancels_echo = λ p q. (let e = (eq_iff h.capture_policy "always").1 q in ground arith);
  }

module _ (h : Hello) (v : h.version ≡ protocol_version) (m : h.capabilities.microphone ≡ true)
    (s : h.capabilities.speaker ≡ true) where
  -- With the one supervisor of its client and a policy that it may use, the tests pass.
  passes :
      (c : Client)
      → h.client ≡ c
      → h.supervisor ≡ supervisor_of c
      → (h.capture_policy == "always" ≡ true)
        ⊎ ((h.capture_policy == "push-to-talk" ≡ true) × (may_push_to_talk c ≡ true))
      → (c ≡ ios_native
          → h.capture_policy == "always" ≡ true
          → h.capabilities.echo_cancellation ≡ true)
      → validate_protocol h ≡ none
  unfolding validate_protocol
  passes linux_native p u (inl q) echo = ground arith
  passes macos_native p u (inl q) echo = ground arith
  passes browser p u (inl q) echo = ground arith
  passes ios_native p u (inl q) echo = let cancels = echo refl q in ground arith
  passes linux_native p u (inr (q, k)) echo = cc (k)
  passes macos_native p u (inr (q, k)) echo = cc (k)
  passes browser p u (inr (q, k)) echo = ground arith
  passes ios_native p u (inr (q, k)) echo = elim (Bool-cases (h.capture_policy == "always")) [
    | inl e ↦ let cancels = echo refl e in ground arith
    | inr e ↦ ground arith
  ]

Admissible-accepted : (h : Hello) → Admissible h → validate_protocol h ≡ none
Admissible-accepted h a =
    passes h a.versioned a.hears a.speaks h.client refl a.supervised
      (elim a.captures [
        | inl q ↦ inl ((eq_iff h.capture_policy "always").1 q)
        | inr (q, k) ↦ inr ((eq_iff h.capture_policy "push-to-talk").1 q, k)
      ])
      (λ c q. a.cancels_echo c (eq_of_== h.capture_policy "always" q))

-- A greeting is accepted exactly when it is of this version, hears and speaks, has the one supervisor of
-- its kind of client, captures always or, where the client may, on request, and an iOS client that always
-- captures cancels echo.
pub validate_iff_Admissible : (h : Hello) → (validate_protocol h ≡ none) ↔ Admissible h
validate_iff_Admissible h = (accepted-Admissible h, Admissible-accepted h)
