-- ===== src/Engine/Queue/Eligible.antt =====
-- crates/nzbd-engine/src/queue.rs: what the filters and the order of the active set mean.
use nzbd.Prelude.{
  ◌≡◌, refl, subst, ◌⊎◌, inl, inr, Bool, true, false, not, ◌&&◌, ◌||◌, List, Option, none, some,
  arith, Bool-cases, In, In-member, member-In, any, any-In, In-any, member, is_some,
}
use nzbd.Prelude.Int.{ℤ, leb_ℤ}
use nzbd.Types.Torrent.{TorrentRecord}
use nzbd.Types.Job.{
  JobId, FileId, Job, JobKind, nzb, url, torrent, queued, downloading, paused, FileEntry, Segment,
  is_pending, is_terminal, force_priority,
}
use nzbd.Engine.Backend.{torrent_wants_download_slot}
use nzbd.Engine.Queue.{
  QueueState, PostFetch, allowed_files, allows, files_have_work, torrent_has_work, work_by_kind,
  job_schedulable, has_backend_work, is_eligible, stalled_retry, ranks_before,
}

-- Some segment of a file can be handed out, among the authorised files where only some are.
abbrev pub FileWork : Option (List FileId) → Job → Type 0
FileWork allowed j =
    (f : FileEntry) × In f j.files
    × (f.paused ≡ false)
    × (is_terminal f ≡ false)
    × ((l : List FileId) → allowed ≡ some l → In f.id l)
    × ((s : Segment) × In s f.segments × (is_pending s.state ≡ true))

abbrev pub Work : JobKind → ℤ → Option (List FileId) → Job → Type 0
Work torrent now allowed j =
    (t : TorrentRecord) × (j.torrent_record ≡ some t)
    × (torrent_wants_download_slot t j.queued_at_unix now ≡ true)
Work nzb now allowed j = FileWork allowed j
Work url now allowed j = FileWork allowed j

-- Queued or downloading, and not held back unless its priority forces it; or paused, and forced.
abbrev pub Schedulable : Job → Bool → Bool → Type 0
Schedulable j held_back soft_hold =
    (((j.status ≡ queued) ⊎ (j.status ≡ downloading))
      × ((force_priority j ≡ true) ⊎ ((held_back ≡ false) × (soft_hold ≡ false))))
    ⊎ ((j.status ≡ paused) × (force_priority j ≡ true))

-- A job that may download on this node: it runs here, or a repair fetches some of its files.
pub record MayDownload (state : QueueState) (delegated : List JobId) (post_fetch_files : PostFetch)
    (regular_downloads soft_hold : Bool) (now : ℤ) (j : Job) : Type 0 where
  pub here : (¬ In j.id delegated) ⊎ (is_some (allowed_files post_fetch_files j.id) ≡ true)
  pub allowed : (regular_downloads ≡ true) ⊎ (is_some (allowed_files post_fetch_files j.id) ≡ true)
  pub schedulable : Schedulable j state.download_paused soft_hold
  pub work : Work j.kind now (allowed_files post_fetch_files j.id) j

-- A stalled retry comes after all others; then the higher priority comes first.
abbrev pub NoLater : ℤ → Job → Job → Type 0
NoLater now a b =
    ((stalled_retry a now ≡ false) × (stalled_retry b now ≡ true))
    ⊎ ((stalled_retry a now ≡ stalled_retry b now) × (leb_ℤ b.priority a.priority ≡ true))

pub ranks_before-NoLater : (now : ℤ) (a b : Job) → ranks_before now a b ≡ true → NoLater now a b
unfolding ranks_before
ranks_before-NoLater now a b h = elim (Bool-cases (stalled_retry a now)) [
  | inl t ↦ elim (Bool-cases (stalled_retry b now)) [
    | inl u ↦ inr (ground (arith, t, u), ground (arith, h, t, u))
    | inr u ↦ absurd (ground (arith, h, t, u))
  ]
  | inr t ↦ elim (Bool-cases (stalled_retry b now)) [
    | inl u ↦ inl (t, u)
    | inr u ↦ inr (ground (arith, t, u), ground (arith, h, t, u))
  ]
]

pub allows-In :
    (o : Option (List FileId)) (f : FileId)
    → allows o f ≡ true
    → (l : List FileId) → o ≡ some l
    → In f l
allows-In none f h l e = absurd (ground (arith, e))
allows-In (some k) f h l e =
    let same : k ≡ l = ground (arith, e) in subst (λ x. In f x) same (member-In f k h)

In-allows :
    (o : Option (List FileId)) (f : FileId)
    → ((l : List FileId) → o ≡ some l → In f l)
    → allows o f ≡ true
In-allows none f h = refl
In-allows (some k) f h = In-member f k (h k refl)

abbrev has_work : Option (List FileId) → FileEntry → Bool
has_work allowed f =
    not f.paused
    && not (is_terminal f)
    && allows allowed f.id
    && any (λ (s : Segment). is_pending s.state) f.segments

files_have_work-FileWork :
    (o : Option (List FileId)) (j : Job) → files_have_work j.files o ≡ true → FileWork o j
files_have_work-FileWork o j h =
    let (f, m, e) = any-In (has_work o) j.files h in
    let a : allows o f.id ≡ true = ground (arith, e) in
    let p : any (λ (s : Segment). is_pending s.state) f.segments ≡ true = ground (arith, e) in
    (
      f,
      m,
      ground (arith, e),
      ground (arith, e),
      allows-In o f.id a,
      any-In (λ (s : Segment). is_pending s.state) f.segments p,
    )

FileWork-files_have_work :
    (o : Option (List FileId)) (j : Job) → FileWork o j → files_have_work j.files o ≡ true
FileWork-files_have_work o j (f, m, p, t, a, (s, k, e)) =
    let b = In-allows o f.id a in
    let q = In-any (λ (u : Segment). is_pending u.state) f.segments s k e in
    In-any (has_work o) j.files f m (ground (arith, p, t, b, q))

torrent_has_work-eq :
    (o : Option TorrentRecord) (j : Job) (now : ℤ)
    → torrent_has_work o j now ≡ true
    → (t : TorrentRecord) × (o ≡ some t)
      × (torrent_wants_download_slot t j.queued_at_unix now ≡ true)
torrent_has_work-eq none j now h = absurd (ground (arith, h))
torrent_has_work-eq (some t) j now h = (t, refl, h)

work_by_kind-Work :
    (k : JobKind) (now : ℤ) (o : Option (List FileId)) (j : Job)
    → work_by_kind k j now o ≡ true
    → Work k now o j
work_by_kind-Work torrent now o j h = torrent_has_work-eq j.torrent_record j now h
work_by_kind-Work nzb now o j h = files_have_work-FileWork o j h
work_by_kind-Work url now o j h = files_have_work-FileWork o j h

Work-work_by_kind :
    (k : JobKind) (now : ℤ) (o : Option (List FileId)) (j : Job)
    → Work k now o j
    → work_by_kind k j now o ≡ true
Work-work_by_kind torrent now o j (t, e, w) = rw (e, torrent_has_work) w
Work-work_by_kind nzb now o j h = FileWork-files_have_work o j h
Work-work_by_kind url now o j h = FileWork-files_have_work o j h

job_schedulable-Schedulable :
    (j : Job) (held soft : Bool) → job_schedulable j (held || soft) ≡ true → Schedulable j held soft
unfolding job_schedulable
job_schedulable-Schedulable j held soft h = ground (arith, h)

Schedulable-job_schedulable :
    (j : Job) (held soft : Bool) → Schedulable j held soft → job_schedulable j (held || soft) ≡ true
unfolding job_schedulable
Schedulable-job_schedulable j held soft h = ground (arith, h)

module _ (state : QueueState) (delegated : List JobId) (post_fetch_files : PostFetch)
    (regular_downloads soft_hold : Bool) (now : ℤ) (j : Job) where
  pub is_eligible-MayDownload :
      is_eligible state delegated post_fetch_files regular_downloads soft_hold now j ≡ true
      → MayDownload state delegated post_fetch_files regular_downloads soft_hold now j
  unfolding is_eligible has_backend_work
  is_eligible-MayDownload h = record {
    here = elim (Bool-cases (member j.id delegated)) [
      | inl t ↦ inr (ground (arith, h, t))
      | inr f ↦ inl (λ m. let t = In-member j.id delegated m in ground (arith, t, f))
    ];
    allowed = ground (arith, h);
    schedulable = job_schedulable-Schedulable j state.download_paused soft_hold (ground (arith, h));
    work = work_by_kind-Work j.kind now (allowed_files post_fetch_files j.id) j (ground (arith, h));
  }

  pub MayDownload-is_eligible :
      MayDownload state delegated post_fetch_files regular_downloads soft_hold now j
      → is_eligible state delegated post_fetch_files regular_downloads soft_hold now j ≡ true
  unfolding is_eligible has_backend_work
  MayDownload-is_eligible m =
      let s = Schedulable-job_schedulable j state.download_paused soft_hold m.schedulable in
      let w = Work-work_by_kind j.kind now (allowed_files post_fetch_files j.id) j m.work in
      let a = m.allowed in
      elim m.here [
        | inr r ↦ ground (arith, s, w, a, r)
        | inl away ↦ elim (Bool-cases (member j.id delegated)) [
          | inl t ↦ absurd (away (member-In j.id delegated t))
          | inr f ↦ ground (arith, s, w, a, f)
        ]
      ]
