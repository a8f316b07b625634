-- ===== src/Auth/Claims/Laws.antt =====
-- crates/permissionsync-auth/src/claims.rs: what accepted claims satisfy.
use permissionsync.Prelude.{
  Bool, true, false, not, ◌||◌, Option, none, some, if◌then◌else◌, ok_or, ◌≡◌, refl, sym, ap, subst,
  ◌∙◌, Result, ok, err, Text, text, arith,
}
use permissionsync.Prelude.Outcome
use permissionsync.Prelude.Io.{Io, pure, proceed-eq-ok, ◌>>=◌, ◌>>◌, lift, guard}
use permissionsync.Domain.Context.{Signals, SynchronizationContext}
use permissionsync.Auth.Types.{AuthenticationError, rejected, TargetSelection, check_context}
use permissionsync.Auth.Claims.{
  F64, Value, Fields, get, as_str, as_object, and_then, claim_is, audience_matches, numeric_date,
  optional_date, ClaimsConfig, ParsedAuthenticationClaims, parse_authentication_claim_shapes,
  outside_validity, scope_selection, wall_clock, validate_claims,
}

ok_or-eq-ok : {E A : Type 0} (e : E) (o : Option A) {a : A} → ok_or e o ≡ ok a → o ≡ some a
ok_or-eq-ok e none h = cc
ok_or-eq-ok e (some a) h = cc

guarded :
    {W E : Type 0} (b : Bool) (e : E) (u : Unit {0}) (w w' : W)
    → guard (not b) e w ≡ (ok u, w')
    → b ≡ false
guarded false e u w w' h = refl
guarded true e u w w' h = cc

module _ (f : F64) where
  open f use {Float, le, gt, add}

  -- What the shapes of the claims have to be, with the values read from them.
  pub record HasShapes (claims : Fields Float) (config : ClaimsConfig Float)
      (parsed : ParsedAuthenticationClaims Float) : Type 0 where
    pub issuer : claim_is config.issuer (get (text "iss") claims) ≡ true
    pub audience : audience_matches (get (text "aud") claims) config.audience ≡ true
    pub expiry : numeric_date f (get (text "exp") claims) ≡ some parsed.exp
    pub issued : numeric_date f (get (text "iat") claims) ≡ some parsed.iat
    pub client : and_then as_str (get (text "client_id") claims) ≡ some parsed.client_id
    pub not_before : optional_date f (get (text "nbf") claims) ≡ ok parsed.nbf

  -- The chain of the shapes over the values that it reads.
  chained :
      (i a : Bool) (e t : Option Float) (c : Option Text)
      (n : Result AuthenticationError (Option Float)) (parsed : ParsedAuthenticationClaims Float)
      → (if not i || not a
          then err rejected
          else Outcome.◌>>=◌ (ok_or rejected e) λ exp. Outcome.◌>>=◌ (ok_or rejected t) λ iat.
            Outcome.◌>>=◌ (ok_or rejected c) λ client_id.
              Outcome.◌>>=◌ n
                λ nbf. ok (record { client_id = client_id; exp = exp; iat = iat; nbf = nbf }))
        ≡ ok parsed
      → (i ≡ true)
        × (a ≡ true)
        × (e ≡ some parsed.exp)
        × (t ≡ some parsed.iat)
        × (c ≡ some parsed.client_id)
        × (n ≡ ok parsed.nbf)
  chained true true (some e) (some t) (some c) (ok n) parsed h = ground arith
  chained true true (some e) (some t) (some c) (err x) parsed h = cc
  chained true true (some e) (some t) none n parsed h = cc
  chained true true (some e) none c n parsed h = cc
  chained true true none t c n parsed h = cc
  chained true false e t c n parsed h = cc
  chained false a e t c n parsed h = cc

  shapes :
      (claims : Fields Float) (config : ClaimsConfig Float)
      (parsed : ParsedAuthenticationClaims Float)
      → parse_authentication_claim_shapes f claims config ≡ ok parsed
      → HasShapes claims config parsed
  unfolding parse_authentication_claim_shapes
  shapes claims config parsed h =
      let (issuer, audience, expiry, issued, client, not_before) =
        chained (claim_is config.issuer (get (text "iss") claims))
          (audience_matches (get (text "aud") claims) config.audience)
          (numeric_date f (get (text "exp") claims)) (numeric_date f (get (text "iat") claims))
          (and_then as_str (get (text "client_id") claims))
          (optional_date f (get (text "nbf") claims)) parsed h in
      record {
        issuer = issuer;
        audience = audience;
        expiry = expiry;
        issued = issued;
        client = client;
        not_before = not_before;
      }

  -- Not expired, and neither issued nor first valid later than the clock skew allows.
  pub record IsTimely (config : ClaimsConfig Float) (parsed : ParsedAuthenticationClaims Float)
      (now : Float) : Type 0 where
    pub unexpired : le parsed.exp now ≡ false
    pub issued_before : gt parsed.iat (add now config.clock_skew) ≡ false
    pub begun : (nbf : Float) → parsed.nbf ≡ some nbf → gt nbf (add now config.clock_skew) ≡ false

  outside_validity-IsTimely :
      (config : ClaimsConfig Float) (parsed : ParsedAuthenticationClaims Float) (now : Float)
      → outside_validity f config parsed now ≡ false
      → IsTimely config parsed now
  unfolding outside_validity
  outside_validity-IsTimely config parsed now h = record {
    unexpired = ground arith;
    issued_before = ground arith;
    begun = λ nbf e. ground arith;
  }

  module _ {W : Type 0} (signals : Signals W) (parse_json : Text → Option (Value Float))
      (unix_seconds : W → Option Float × W) where
    -- The validation that starts in `w`: `now` is what its own reading of the wall clock gives, after
    -- the two checks before it.
    pub record IsValid (payload : Text) (config : ClaimsConfig Float)
        (context : SynchronizationContext) (w : W) (client_id : Text) (selection : TargetSelection)
        : Type 0 where
      pub claims : Fields Float
      pub parsed : ParsedAuthenticationClaims Float
      pub entered : W
      pub entry : check_context signals context w ≡ (ok tt, entered)
      pub checked : W
      pub check : check_context signals context entered ≡ (ok tt, checked)
      pub now : Float
      pub read : W
      pub clock : unix_seconds checked ≡ (some now, read)
      pub payload_object : and_then as_object (parse_json payload) ≡ some claims
      pub has_shapes : HasShapes claims config parsed
      pub timely : IsTimely config parsed now
      pub selected : scope_selection f (get (text "scope") claims) ≡ ok selection
      pub client : client_id ≡ parsed.client_id

    abbrev Checked : Type 0
    Checked = Io W AuthenticationError (Text × TargetSelection)

    abbrev passed : SynchronizationContext → Io W AuthenticationError (Unit {0})
    passed context = check_context signals context

    -- What is left of a validation after the temporal check, after the shapes, and after the object.
    abbrev selecting :
        SynchronizationContext → Fields Float → ParsedAuthenticationClaims Float → Checked
    selecting context claims parsed =
        passed context
        >> (lift (scope_selection f (get (text "scope") claims)) >>= λ selection.
            passed context >> pure (parsed.client_id, selection))

    abbrev timing :
        ClaimsConfig Float
        → SynchronizationContext
        → Fields Float
        → ParsedAuthenticationClaims Float
        → Checked
    timing config context claims parsed =
        passed context
        >> (wall_clock f signals parse_json unix_seconds >>= λ now.
            guard (not (outside_validity f config parsed now)) rejected
            >> selecting context claims parsed)

    selecting-Selected :
        (context : SynchronizationContext) (claims : Fields Float)
        (parsed : ParsedAuthenticationClaims Float) (w w' : W) (client_id : Text)
        (selection : TargetSelection)
        → selecting context claims parsed w ≡ (ok (client_id, selection), w')
        → (scope_selection f (get (text "scope") claims) ≡ ok selection)
          × (client_id ≡ parsed.client_id)
    selecting-Selected context claims parsed w w' client_id selection h =
        let (_, w1, _, h1) =
          proceed-eq-ok
            (λ _. lift (scope_selection f (get (text "scope") claims)) >>= λ s.
              passed context >> pure (parsed.client_id, s))
            (passed context w) h in
        let (s, w2, e2, h2) =
          proceed-eq-ok (λ s. passed context >> pure (parsed.client_id, s))
            (lift (scope_selection f (get (text "scope") claims)) w1) h1 in
        let (_, w3, _, h3) =
          proceed-eq-ok (λ _. pure (parsed.client_id, s)) (passed context w2) h2 in
        let both : ◌≡◌ {A = Text × TargetSelection} (parsed.client_id, s) (client_id, selection) =
          cc in
        (ap (λ r. r.0) e2 ∙ ap (λ p. ok p.1) both, sym (ap (λ p. p.0) both))

    wall_clock-reading :
        (now : Float) (w w' : W)
        → wall_clock f signals parse_json unix_seconds w ≡ (ok now, w')
        → unix_seconds w ≡ (some now, w')
    unfolding wall_clock
    wall_clock-reading now w w' h = ground arith

    timing-Valid :
        (config : ClaimsConfig Float) (context : SynchronizationContext) (claims : Fields Float)
        (parsed : ParsedAuthenticationClaims Float) (w w' : W) (client_id : Text)
        (selection : TargetSelection)
        → timing config context claims parsed w ≡ (ok (client_id, selection), w')
        → (w1 : W) × (passed context w ≡ (ok tt, w1))
          × (now : Float) × (w2 : W) × (unix_seconds w1 ≡ (some now, w2))
          × (outside_validity f config parsed now ≡ false)
          × (scope_selection f (get (text "scope") claims) ≡ ok selection)
          × (client_id ≡ parsed.client_id)
    timing-Valid config context claims parsed w w' client_id selection h =
        let (_, w1, e1, h1) =
          proceed-eq-ok
            (λ _. wall_clock f signals parse_json unix_seconds >>= λ now.
              guard (not (outside_validity f config parsed now)) rejected
              >> selecting context claims parsed)
            (passed context w) h in
        let (now, w2, e2, h2) =
          proceed-eq-ok
            (λ now.
              guard (not (outside_validity f config parsed now)) rejected
              >> selecting context claims parsed)
            (wall_clock f signals parse_json unix_seconds w1) h1 in
        let (u, w3, e3, h3) =
          proceed-eq-ok (λ _. selecting context claims parsed)
            (guard (not (outside_validity f config parsed now)) rejected w2) h2 in
        let (selected, client) =
          selecting-Selected context claims parsed w3 w' client_id selection h3 in
        (
          w1,
          e1,
          now,
          w2,
          wall_clock-reading now w1 w2 e2,
          guarded (outside_validity f config parsed now) rejected u w2 w3 e3,
          selected,
          client,
        )

    -- Claims are accepted only if the payload is an object with the issuer and the audience of the
    -- configuration and well-formed dates, if the wall clock that this validation reads is within
    -- their validity, and with a scope that selects the returned target; the client is that of the
    -- claims.
    pub validate_claims-IsValid :
        (payload : Text) (config : ClaimsConfig Float) (context : SynchronizationContext) (w w' : W)
        (client_id : Text) (selection : TargetSelection)
        → validate_claims f signals parse_json unix_seconds payload config context w
          ≡ (ok (client_id, selection), w')
        → IsValid payload config context w client_id selection
    unfolding validate_claims
    validate_claims-IsValid payload config context w w' client_id selection h =
        let shaping : Fields Float → Checked =
          λ c. lift (parse_authentication_claim_shapes f c config) >>= timing config context c in
        let opening : Value Float → Checked =
          λ v. lift (ok_or rejected (as_object v)) >>= shaping in
        let (_, w1, e1, h1) =
          proceed-eq-ok (λ _. lift (ok_or rejected (parse_json payload)) >>= opening)
            (passed context w) h in
        let (v, w2, e2, h2) =
          proceed-eq-ok opening (lift (ok_or rejected (parse_json payload)) w1) h1 in
        let (claims, w3, e3, h3) =
          proceed-eq-ok shaping (lift (ok_or rejected (as_object v)) w2) h2 in
        let (parsed, w4, e4, h4) =
          proceed-eq-ok (timing config context claims)
            (lift (parse_authentication_claim_shapes f claims config) w3) h3 in
        let (checked, check, now, read, clock, timely, selected, client) =
          timing-Valid config context claims parsed w4 w' client_id selection h4 in
        record {
          claims = claims;
          parsed = parsed;
          entered = w1;
          entry = e1;
          checked = checked;
          check =
              subst (λ x. check_context signals context x ≡ (ok tt, checked))
                (sym (ap (λ r. r.1) e2 ∙ ap (λ r. r.1) e3 ∙ ap (λ r. r.1) e4)) check;
          now = now;
          read = read;
          clock = clock;
          payload_object =
              ap (and_then as_object) (ok_or-eq-ok rejected (parse_json payload) (ap (λ r. r.0) e2))
              ∙ ok_or-eq-ok rejected (as_object v) (ap (λ r. r.0) e3);
          has_shapes = shapes claims config parsed (ap (λ r. r.0) e4);
          timely = outside_validity-IsTimely config parsed now timely;
          selected = selected;
          client = client;
        }
