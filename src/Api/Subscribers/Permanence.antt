-- ===== src/Api/Subscribers/Permanence.antt =====
-- What the requests of app/api/subscribers.py never change of a subscriber.
use unith_task.Prelude.{ℕ, ◌≡◌, refl, ◌∙◌, String, false, some, arith, inl, inr, Bool-cases}
use unith_task.Prelude.Result.{Result-cases}
use unith_task.Db.{Subscriber, Database, is_none, is_subscriber, find_subscriber}
use unith_task.Db.Table.{update_rows, find_row-update_rows, find_row-append}
use unith_task.Schemas.{SubscriberCreate, SubscriberUpdate}
use unith_task.Api.Subscribers.{
  get_or_404, patched, deleted, create_subscriber, patch_row, delete_subscriber,
}

-- The later row is of the same subscriber, with the same name and secret, and deleted if it was.
pub record IsSameSubscriber (x y : Subscriber) : Type 0 where
  pub same_id : y.id ≡ x.id
  pub same_name : y.name ≡ x.name
  pub same_secret : y.secret ≡ x.secret
  pub same_creation : y.created_at ≡ x.created_at
  pub still_deleted : is_none x.deleted_at ≡ false → is_none y.deleted_at ≡ false

same_subscriber : (x : Subscriber) → IsSameSubscriber x x
same_subscriber x = record {
  same_id = refl;
  same_name = refl;
  same_secret = refl;
  same_creation = refl;
  still_deleted = λ h. h;
}

abbrev pub Remains : ℕ → Database → Database → Type 0
Remains i db db' =
    (x : Subscriber)
    → find_subscriber i db ≡ some x
    → (y : Subscriber) × (find_subscriber i db' ≡ some y) × IsSameSubscriber x y

pub Remains-table :
    (i : ℕ) (db db' : Database) → db'.subscribers ≡ db.subscribers → Remains i db db'
unfolding find_subscriber
Remains-table i db db' e x found = (x, rw e found, same_subscriber x)

pub Remains-trans : (i : ℕ) (a b c : Database) → Remains i a b → Remains i b c → Remains i a c
Remains-trans i a b c h k x found =
    let (y, found', one) = h x found in
    let (z, found'', two) = k y found' in
    (
      z,
      found'',
      record {
        same_id = two.same_id ∙ one.same_id;
        same_name = two.same_name ∙ one.same_name;
        same_secret = two.same_secret ∙ one.same_secret;
        same_creation = two.same_creation ∙ one.same_creation;
        still_deleted = λ gone. two.still_deleted (one.still_deleted gone);
      },
    )

Remains-update :
    (i j : ℕ) (f : Subscriber → Subscriber) (db : Database)
    → ((x : Subscriber) → IsSameSubscriber x (f x))
    → Remains i db (record db { subscribers = update_rows (is_subscriber j) f db.subscribers })
unfolding find_subscriber
Remains-update i j f db keep x found =
    let after =
      find_row-update_rows (is_subscriber i) (is_subscriber j) f db.subscribers
        (λ y. rw ((keep y).same_id)) in
    elim (Bool-cases (is_subscriber j x)) [
      | inl hit ↦ (f x, ground (arith, after, found, hit), keep x)
      | inr miss ↦ (x, ground (arith, after, found, miss), same_subscriber x)
    ]

pub create-Remains :
    (i id : ℕ) (secret : String) (now : ℕ) (body : SubscriberCreate) (db : Database)
    → Remains i db (create_subscriber id secret now body db).1
unfolding create_subscriber find_subscriber
create-Remains i id secret now body db x found =
    (x, rw (find_row-append (is_subscriber i) db.subscribers, found) refl, same_subscriber x)

pub patch-Remains :
    (i id : ℕ) (body : SubscriberUpdate) (now : ℕ) (db : Database)
    → Remains i db (patch_row id body now db).1
unfolding patch_row
patch-Remains i id body now db = elim (Result-cases (get_or_404 id db)) [
  | inl (x, e) ↦
      rw (e, patch_row)
        (Remains-update i id (patched body now) db (λ y. record {
          same_id = refl;
          same_name = refl;
          same_secret = refl;
          same_creation = refl;
          still_deleted = λ h. h;
        }))
  | inr (x, e) ↦ rw (e, patch_row) (Remains-table i db db refl)
]

pub delete-Remains : (i id now : ℕ) (db : Database) → Remains i db (delete_subscriber id now db).1
unfolding delete_subscriber
delete-Remains i id now db = elim (Result-cases (get_or_404 id db)) [
  | inl (x, e) ↦
      rw (e, delete_subscriber)
        (Remains-update i id (deleted now) db (λ y. record {
          same_id = refl;
          same_name = refl;
          same_secret = refl;
          same_creation = refl;
          still_deleted = λ h. refl;
        }))
  | inr (x, e) ↦ rw (e, delete_subscriber) (Remains-table i db db refl)
]

-- These requests write no event.
pub create-keys :
    (id : ℕ) (secret : String) (now : ℕ) (body : SubscriberCreate) (db : Database)
    → (create_subscriber id secret now body db).1.idempotency_keys ≡ db.idempotency_keys
unfolding create_subscriber
create-keys id secret now body db = refl

pub patch-keys :
    (id : ℕ) (body : SubscriberUpdate) (now : ℕ) (db : Database)
    → (patch_row id body now db).1.idempotency_keys ≡ db.idempotency_keys
unfolding patch_row
patch-keys id body now db = elim (Result-cases (get_or_404 id db)) [
  | inl (x, e) ↦ rw (e, patch_row)
  | inr (x, e) ↦ rw (e, patch_row)
]

pub delete-keys :
    (id now : ℕ) (db : Database)
    → (delete_subscriber id now db).1.idempotency_keys ≡ db.idempotency_keys
unfolding delete_subscriber
delete-keys id now db = elim (Result-cases (get_or_404 id db)) [
  | inl (x, e) ↦ rw (e, delete_subscriber)
  | inr (x, e) ↦ rw (e, delete_subscriber)
]
