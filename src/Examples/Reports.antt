-- ===== src/Examples/Reports.antt =====
-- The agent's reports and the codec at concrete inputs.
use pangaea.Prelude.{
  to_option, ℕ, ◌≡◌, refl, String, true, false, List, [], ◌∷◌, none, some, Result, failed, done,
  lookup, insert, delete,
}
use pangaea.Formats.Clock.{epoch}
use pangaea.Formats.Text.{trim_bom}
use pangaea.Formats.Claude
use pangaea.Formats.Claude.{Snapshot}
use pangaea.Formats.Accepting.{claude_accepts}
use pangaea.Transport.{Kind, Envelope, valid_kind}
use pangaea.Transport.Codec.{Json, marshal, envelope_of}
use pangaea.Server.Mediator.State.{Candidate, TruthState}
use pangaea.Server.Mediator.Events.{handle, report, reported_candidate, init}
use pangaea.Server.Mediator.Reselect.{reselect}
use pangaea.Server.Mediator.Push.{lags}
use pangaea.Server.Dispatch.{Decoder, forward, handle_message}
use pangaea.Client.Apply.{
  apply_truth, apply_decoded, write_one, acquire, write_backed, write_verified, restore,
}
use pangaea.Client.Reporting.{
  Agent, Describes, presence, contents, report_event, report_of, is_expired,
}
use pangaea.Client.Reporting.Arriving.{Carries, sent, report-arrives}
use pangaea.Client.Reporting.Agreeing.{applied, applied-reported}
use pangaea.Examples.{
  encode, decode, unary, digest, unmarshal as read_oauth, claude, file_of, mediator, world, alice,
}
use pangaea.Examples.Agent.{io, disk, truth, fresh, applied_ok}

abbrev agent : Agent
agent = record { profile = "p"; dir = "/"; path = "/c"; account_meta_path = "" }

abbrev describes : Describes Snapshot
describes = record {
  account = none;
  account_display = none;
  redact = λ s. record {
    identity = "id";
    subscription = "max";
    fingerprint_short = "f";
    token_tail4 = "";
    expires_at = 0;
    scopes = [];
    extra = [];
  };
  marshal_summary = λ s. s.identity;
}

parsed : claude.parse (3 ∷ []) ≡ some (file_of 3)
unfolding Claude.parse Claude.parse_block Claude.missing trim_bom
parsed = refl

abbrev decoder : Decoder
decoder = record {
  snapshot_report_of =
      λ s. some (sent claude describes unary agent mediator world epoch (3 ∷ []) (file_of 3) alice);
  snapshot_absent_of = λ s. none;
  truth_ack_of = λ s. none;
}

abbrev message : Envelope
message = envelope_of Kind.snapshot_report 1 "i" 0 "{}"

report-arrives_example :
    (report_event claude describes unary agent epoch (contents (3 ∷ []))
      ≡ presence
          (sent claude describes unary agent mediator world epoch (3 ∷ []) (file_of 3) alice)
          (is_expired (claude.validate (file_of 3) epoch).status))
    × (handle_message alice true decoder message
        ≡ forward (
            report alice
              (sent claude describes unary agent mediator world epoch (3 ∷ []) (file_of 3) alice)))
    × ((c : Candidate Snapshot) × Carries claude describes unary agent mediator world epoch
          (3 ∷ [])
          (file_of 3)
          alice
          c
        × (handle claude unary mediator world init (
              report alice
                (sent claude describes unary agent mediator world epoch (3 ∷ []) (file_of 3) alice))
            ≡ reselect claude unary mediator world
                (record { candidates = insert alice.node_id c []; truths = []; mirror = [] })
                claude.name))
report-arrives_example =
    report-arrives claude describes unary agent mediator world epoch (3 ∷ []) (file_of 3) alice
      decoder init message parsed (unfold encode in refl) refl refl refl

to_option_inv : (r : Result String Snapshot) (x : Snapshot) → to_option r ≡ some x → r ≡ done x
to_option_inv (failed e) x h = cc
to_option_inv (done y) x h = cc

digests :
    (file : List ℕ) (x : Snapshot) → claude.parse file ≡ some x → claude.fingerprint x ≡ digest file
digests file x h =
    (claude_accepts digest read_oauth file x
      (to_option_inv (Claude.parse read_oauth digest file) x h)).0.1

written : lookup "/c" (applied claude describes unary agent digest io truth disk) ≡ some (3 ∷ [])
unfolding apply_truth apply_decoded write_one acquire write_backed write_verified restore lookup
    insert delete encode decode
written = refl

abbrev settled : TruthState
settled = record {
  account = "acc";
  fingerprint = digest (3 ∷ []);
  issued_at = epoch;
  summary = "";
  raw_b64 = encode (3 ∷ []);
  format = Claude.format_name;
  pushed_at = epoch;
}

applied-reported_example :
    (report_event claude describes unary agent epoch (contents (3 ∷ []))
      ≡ presence
          (report_of claude describes unary agent epoch (3 ∷ []) (file_of 3))
          (is_expired (claude.validate (file_of 3) epoch).status))
    × ((report_of claude describes unary agent epoch (3 ∷ []) (file_of 3)).fingerprint
        ≡ truth.fingerprint)
    × (lags settled "n2" "n1" (
          reported_candidate claude unary mediator world alice
            (report_of claude describes unary agent epoch (3 ∷ []) (file_of 3))
            (file_of 3))
        ≡ false)
applied-reported_example =
    applied-reported claude describes unary agent digest io truth disk mediator world epoch (3 ∷ [])
      (file_of 3) alice settled "n2" "n1" digests fresh applied_ok written parsed refl

-- A JSON that writes the payload alone.
abbrev payload_json : Json
payload_json = record { encode = λ e. done e.payload; decode = λ t. none }

nil_payload : marshal payload_json Kind.hello 1 "i" 0 none ≡ done "null"
unfolding marshal valid_kind
nil_payload = refl

wrong_kind : marshal payload_json (Kind.unknown "x") 1 "i" 0 none ≡ failed "invalid kind"
unfolding marshal valid_kind
wrong_kind = refl
