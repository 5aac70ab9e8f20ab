-- ===== src/Lib.antt =====
-- MildStack's local emulation of AWS services, in core/internal: a model of its SQS and S3 services.
--
-- The program runs emulated services behind one HTTP endpoint. Each service keeps its whole state in
-- memory, answers a call under a mutex, saves the state through a repository after each change and
-- publishes a snapshot of it to a hook. This library models the SQS service of
-- core/internal/resources/sqs: standard and FIFO queues, leases, dead letters and their worker; and the
-- S3 service of core/internal/resources/s3: buckets, objects and their payloads, versions, object lock,
-- uploads in parts and pages of objects. The two share the values of core/internal/resources/awscontext
-- and nothing else.
--
-- A call is a function from a `Service`, which holds the state, what was saved last and what was
-- published last, to the new service and a result or an error. A call is one step, as the mutex makes
-- it; ReceiveMessage, which releases the mutex while it sleeps, takes what other calls do in between as
-- a function. What a call meets from outside stands in `Env`: the readings of the clock, the
-- identifiers of uuid.NewString, whether each save succeeds, MD5, the format of a time, and the
-- decoding of JSON or XML. Nothing is assumed of them but where a theorem names it.
--
-- The files:
--   Prelude: the names of antt's library that all files use; Prelude/Tests the Boolean tests,
--     Prelude/Lists the list functions, Prelude/Text Go's strings.TrimSpace, EqualFold and order of
--     strings, Prelude/Maps a map as an association list, Prelude/Sort sort.SliceStable as an
--     insertion sort, Prelude/Numeral strconv.Itoa and Atoi with int64 wrap-around,
--     Prelude/Distinct lists without repetition, Prelude/Nested a map of maps, Prelude/Time time.Time.
--   Sqs/Domain: core/internal/resources/sqs/domain/state.go, the records of the state.
--   Sqs/Delivery: application/delivery_state.go, when a message is delayed, visible or invisible.
--   Sqs/Service, Sqs/Service/Commit: application/service.go, the state of the service,
--     commitStateLocked (`commit`) and the look-ups of queues.
--     Sqs/Service/Lookup: names under which no queue is active.
--   Sqs/DeadLetter and its children: sweepDeadLettersLocked (`sweep_dead_letters`). A message whose
--     dead-letter queue is not there is marked and stays in its queue, as the code has it.
--   Sqs/Receive and its children: ReceiveMessage and receiveReadyMessagesLocked.
--   Sqs/Send, Sqs/SendBatch, Sqs/Batch and their children: SendMessage and SendMessageBatch.
--   Sqs/Acknowledge and its children: DeleteMessage and DeleteMessageBatch. Sqs/Visibility: ChangeMessageVisibility and
--     its batch.
--   Sqs/Names: ARNs, URLs and the redrive policy. Sqs/Lifecycle and its children: CreateQueue,
--     DeleteQueue, PurgeQueue and SetQueueAttributes.
--   Sqs/Listing: the calls that only read queues. Sqs/Tags and its children: TagQueue, UntagQueue and
--     ListQueueTags. Sqs/Worker: application/worker.go.
--   Sqs/Permissions and its children: AddPermission and RemovePermission.
--   Sqs/Examples: the theorems at concrete queues.
--   S3/Domain: core/internal/resources/s3/domain, the records of the state. S3/Store and its children:
--     what the state does with buckets, objects and versions (UpsertObject is `upsert_object`,
--     DeleteObject of the state `delete_object_record`). S3/VersionId: the identifier of a version.
--   S3/Service: application/service.go, service_persistence.go and payload_store.go, with `Env`, the
--     errors, `persist` and the payloads.
--   S3/BucketName, S3/Buckets: application/service_buckets.go.
--   S3/Lock, S3/Lock/Settings: application/service_object_lock.go. The other children of S3/Lock:
--     objects under a retention, call by call and over runs.
--   S3/Objects and its children: application/service_objects.go, storeObject and, in S3/Objects/Removal,
--     removeObject.
--   S3/Multipart and its child: application/service_multipart.go.
--   S3/Governance: application/service_object_governance.go and the versioning of a bucket.
--   S3/Settings and its child: one function for the ten settings; service_subresources.go, service_bucket_access.go and the notifications and
--     logging of service_bucket_events.go.
--   S3/Listing and its children: ListObjectPage, ListObjectsV1 and ListObjectsV2.
--   S3/Operations: the calls that change the S3 service, as data, and runs of them. S3/Invariant and its
--     child: predicates of the state through the shapes of the calls. S3/Effects: what a write leaves
--     alone. S3/VersionRuns: the version history over runs.
--   S3/Examples: the theorems at a small store.
--
-- Numbers: a time is the nanoseconds since Go's zero time, an unbounded number; time.Duration and
-- int are 64 bits where the code multiplies a number that it read, and the wrap-around is written
-- out there. Counters of attempts, sequence numbers and the sizes of objects are unbounded. Go's
-- slices of bytes in message attributes are text, and those in S3 are lists of numbers. A body that
-- S3 reads is `none` where reading or storing it fails. S3's locks are not modelled, a call is one
-- step. Go's sort is not specified where the order that it is given is not transitive, as the one
-- of a FIFO queue may be where some messages have no sequence number; the model sorts by insertion.
-- Go walks a map in no fixed order; the model walks an association list, and the theorem on added
-- tags names no winner among keys that trim to one. The loop of a long poll runs on fuel, 402
-- rounds: twenty seconds at the longest, in intervals of fifty milliseconds.
--
-- Not modelled: the repositories' SQLite tables and files and the snapshots' maps, which copy the
-- state; the HTTP layer; the message move tasks of SQS; the replication of S3 buckets and S3's
-- lists of uploads and of versions; the services SNS and DynamoDB.
pub mod Prelude
pub mod S3
pub mod Sqs
