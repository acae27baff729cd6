-- ===== src/Projection/Compaction.antt =====
-- Compact storage keeps what `device_status` reads.
use mathlib.Core.Path.{subst}
use scrap_monitoring_backend.Base.{
  ◌≡◌, refl, sym, ap, ◌∙◌, Bool, true, false, Option, none, some, List, [], map, arith, Time,
}
use scrap_monitoring_backend.Projection.Data.{StatusReport}
use scrap_monitoring_backend.Projection.Status.{StatusSettings, LatestStatus, project_status}
use scrap_monitoring_backend.Projection.Device.{
  latest_of_row, received_of, StatusMessage, greatest, latest_instance, latest_of, latest_row,
  retained_receipt, retained_report, snapshot_of, last_received, status_from, device_status,
}
use scrap_monitoring_backend.Projection.Newest.{Kept, KeptBy}
use scrap_monitoring_backend.Projection.Posts.{
  Arrives, Arrives-strip, Posts, quiet, posted, Posts-strip, Stored, greatest-strip,
  received_at-strip, status_with-KeptBy, strip,
}

Posts-KeptBy :
    {c : StatusSettings} {st : Stored}
    → Posts c st
    → KeptBy true st.projected.latest st.compact_rows
      × KeptBy false st.projected.latest st.full_rows
unfolding project_status
Posts-KeptBy (quiet rows e) =
    (subst (λ o. KeptBy true o []) (sym e) refl, subst (λ o. KeptBy false o []) (sym e) refl)
Posts-KeptBy {c} (posted {st} p now t a) =
    let (compact, full) = Posts-KeptBy t in
    let rows = st.projected in
    let a' =
      Arrives-strip p rows.latest st.full_rows (subst (Arrives p rows.latest) (Posts-strip t) a) in
    (
      status_with-KeptBy true c p now st.compact_rows rows rows.latest refl compact a,
      status_with-KeptBy false c p now st.full_rows rows rows.latest refl full a',
    )

latest_row-Kept :
    (flag : Bool) (l : LatestStatus) (rows : List StatusMessage) (k : Kept flag l rows)
    → latest_row rows ≡ some k.top.0
unfolding latest_row
latest_row-Kept flag l rows k =
    let (x, e, i, g) = k.newest in
    let (y, d, j, s, b, z) = k.top in
    ap (λ o. latest_of_row o rows) e ∙ ap (λ n. latest_of n rows) i ∙ d

-- The body that a compact row stands for is the retained report.
compact_snapshot :
    (l : LatestStatus) (rows : List StatusMessage)
    → Kept true l rows
    → snapshot_of (latest_row rows) (some l) rows ≡ some l.payload
unfolding snapshot_of retained_receipt retained_report
compact_snapshot l rows k =
    let (y, d, j, s, b, p) = k.top in
    let (z, e, i, n) = k.found in
    ap (λ o. snapshot_of o (some l) rows) (latest_row-Kept true l rows k)
    ∙ rw (b, e) (ground (arith, i, j, n, s))

full_snapshot :
    (l : LatestStatus) (rows : List StatusMessage)
    → Kept false l rows
    → snapshot_of (latest_row rows) none rows ≡ some l.payload
unfolding snapshot_of
full_snapshot l rows k =
    let (y, d, j, s, b, p) = k.top in
    ap (λ o. snapshot_of o none rows) (latest_row-Kept false l rows k) ∙ rw b p

last_received-strip :
    (rows : List StatusMessage) → last_received (map strip rows) ≡ last_received rows
unfolding last_received
last_received-strip rows =
    ap received_of (greatest-strip (λ x. x.received_at) rows (λ y. refl))
    ∙ received_at-strip (greatest (λ x. x.received_at) rows)

abbrev pub report_of : Option LatestStatus → Option StatusReport
report_of none = none
report_of (some l) = some l.payload

-- The snapshots of both kinds of rows.
snapshots :
    (latest : Option LatestStatus) (compact full : List StatusMessage)
    → KeptBy true latest compact
    → KeptBy false latest full
    → (snapshot_of (latest_row compact) latest compact ≡ report_of latest)
      × (snapshot_of (latest_row full) none full ≡ report_of latest)
unfolding snapshot_of latest_row latest_instance greatest
snapshots none compact full h k = (rw h refl, rw k refl)
snapshots (some l) compact full h k = (compact_snapshot l compact h, full_snapshot l full k)

-- After whatever a device posts, the status of the device that is read from rows without bodies and
-- the retained report is the one that is read from rows with their bodies, and its snapshot is the
-- retained report. Each report has a message identifier and, in its instance, a sequence that are
-- new, and one of another instance than the retained one is older than the retained generation, or
-- is newer and the first of its instance.
pub device_status-compact :
    {c : StatusSettings} {st : Stored} (now : Time)
    → Posts c st
    → (device_status st.compact_rows st.projected.latest now ≡ device_status st.full_rows none now)
      × ((device_status st.full_rows none now).snapshot ≡ report_of st.projected.latest)
unfolding device_status status_from
device_status-compact {c} {st} now t =
    let (compact, full) = Posts-KeptBy t in
    let (e, d) = snapshots st.projected.latest st.compact_rows st.full_rows compact full in
    let received = ap last_received (Posts-strip t) ∙ last_received-strip st.full_rows in
    (rw (received, e, d) refl, d)
