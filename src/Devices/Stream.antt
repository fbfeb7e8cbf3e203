-- ===== src/Devices/Stream.antt =====
-- A run of devices through the table, and the rows that it answers with on the way.
use uscan.Prelude.{◌≡◌, refl, ap, ◌∙◌, Bool, Option, none, some, Option-cases, inl, inr}
use uscan.Prelude.{List, [], ◌∷◌, ◌++◌, arith, if◌then◌else◌, Text, ◌=t=◌, =t=_iff}
use uscan.Prelude.Maps.{Assoc, lookup}
use uscan.Devices.{all_devices, found, Device, DeviceTable, key_of, add}
use uscan.Devices.Table.{IsValid, add-IsValid, lookup-add, add_answer, add_silent}

-- The loop `rx.recv() → table.add` of uscan/src/run.rs over the devices in their order of arrival.
unfoldable pub collect : Bool → Bool → DeviceTable → List Device → DeviceTable
collect ipv4 ipv6 t [] = t
collect ipv4 ipv6 t (d ∷ ds) = collect ipv4 ipv6 (add t d ipv4 ipv6).0 ds

-- One answer of `add`, with the key that it belongs to.
abbrev pub answers : Text → Option Device → List (Text × Device)
answers key none = []
answers key (some d) = (key, d) ∷ []

-- The rows of the streaming mode, each with its key.
unfoldable pub emitted : Bool → Bool → DeviceTable → List Device → List (Text × Device)
emitted ipv4 ipv6 t [] = []
emitted ipv4 ipv6 t (d ∷ ds) =
    answers (key_of t.force_generic d) (add t d ipv4 ipv6).1
    ++ emitted ipv4 ipv6 (add t d ipv4 ipv6).0 ds

-- The last row for a key, or what was known before.
abbrev pub last_row : Text → List (Text × Device) → Option Device → Option Device
last_row k [] before = before
last_row k ((j, d) ∷ rows) before = last_row k rows (if j =t= k then some d else before)

last_row-append :
    (k : Text) (xs ys : List (Text × Device)) (o : Option Device)
    → last_row k (xs ++ ys) o ≡ last_row k ys (last_row k xs o)
last_row-append k [] ys o = refl
last_row-append k ((j, d) ∷ xs) ys o = last_row-append k xs ys (if j =t= k then some d else o)

last_row-add :
    (t : DeviceTable) (d : Device) (ipv4 ipv6 : Bool) (k : Text)
    → last_row k (answers (key_of t.force_generic d) (add t d ipv4 ipv6).1) (lookup k t.entries)
      ≡ lookup k (add t d ipv4 ipv6).0.entries
last_row-add t d ipv4 ipv6 k = elim (Option-cases (add t d ipv4 ipv6).1) [
  | inl silent ↦ ground (arith, silent, add_silent t d ipv4 ipv6)
  | inr (x, answer) ↦ rw answer (
      ground (
        arith,
        add_answer t d x ipv4 ipv6 answer,
        lookup-add t d ipv4 ipv6 k,
        =t=_iff (key_of t.force_generic d) k,
      ))
]

last_row-collect :
    (ipv4 ipv6 : Bool) (t : DeviceTable) (ds : List Device) (k : Text)
    → last_row k (emitted ipv4 ipv6 t ds) (lookup k t.entries)
      ≡ lookup k (collect ipv4 ipv6 t ds).entries
unfolding emitted collect
last_row-collect ipv4 ipv6 t [] k = refl
last_row-collect ipv4 ipv6 t (d ∷ ds) k =
    let rows = answers (key_of t.force_generic d) (add t d ipv4 ipv6).1 in
    let rest = emitted ipv4 ipv6 (add t d ipv4 ipv6).0 ds in
    last_row-append k rows rest (lookup k t.entries)
    ∙ ap (last_row k rest) (last_row-add t d ipv4 ipv6 k)
    ∙ last_row-collect ipv4 ipv6 (add t d ipv4 ipv6).0 ds k

-- The rows of some keys, in the order of the keys.
abbrev pub rows_of : (Text → Option Device) → List Text → List Device
rows_of row [] = []
rows_of row (k ∷ ks) = elim (row k) [ none ↦ rows_of row ks | some d ↦ d ∷ rows_of row ks ]

rows_of-found :
    (row : Text → Option Device) (entries : Assoc Device) (ks : List Text)
    → ((k : Text) → row k ≡ lookup k entries)
    → found entries ks ≡ rows_of row ks
unfolding found
rows_of-found row entries [] h = refl
rows_of-found row entries (k ∷ ks) h =
    let row_k = h k in
    elim (Option-cases (lookup k entries)) [
      | inl nothing ↦ rw (nothing, found, row_k ∙ nothing, rows_of) (rows_of-found row entries ks h)
      | inr (d, there) ↦
          rw (there, found, row_k ∙ there, rows_of)
            (ap (λ l. d ∷ l) (rows_of-found row entries ks h))
    ]

-- After any run of devices through any table, the table holds under a key the last row that the
-- streaming mode printed for it, or, if it printed none, what it held before. So the list of all its
-- devices, which `--batch` prints, has for each key in the table's order its last streamed row.
pub last_row-emitted :
    (ipv4 ipv6 : Bool) (t : DeviceTable) (ds : List Device) (k : Text)
    → (last_row k (emitted ipv4 ipv6 t ds) (lookup k t.entries)
        ≡ lookup k (collect ipv4 ipv6 t ds).entries)
      × (all_devices (collect ipv4 ipv6 t ds)
          ≡ rows_of
              (λ j. last_row j (emitted ipv4 ipv6 t ds) (lookup j t.entries))
              (collect ipv4 ipv6 t ds).order)
unfolding all_devices
last_row-emitted ipv4 ipv6 t ds k = (
  last_row-collect ipv4 ipv6 t ds k,
  rows_of-found (λ j. last_row j (emitted ipv4 ipv6 t ds) (lookup j t.entries))
      (collect ipv4 ipv6 t ds).entries (collect ipv4 ipv6 t ds).order
      (last_row-collect ipv4 ipv6 t ds),
)

pub collect-IsValid :
    (ipv4 ipv6 : Bool) (t : DeviceTable) (ds : List Device)
    → IsValid t
    → IsValid (collect ipv4 ipv6 t ds)
unfolding collect
collect-IsValid ipv4 ipv6 t [] v = v
collect-IsValid ipv4 ipv6 t (d ∷ ds) v =
    collect-IsValid ipv4 ipv6 (add t d ipv4 ipv6).0 ds (add-IsValid t d ipv4 ipv6 v)
