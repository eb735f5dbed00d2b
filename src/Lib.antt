-- ===== src/Lib.antt =====
-- Verification of the Buddy services of the API (apps/api/app): recommendations, invitations, matches
-- and chat, and the sessions, verification tokens and mails that they stand on.
--
-- The program. A student sends an invitation to another (services/invitation_sending.py); the
-- recipient accepts or declines it, the sender cancels or later hides it
-- (services/invitation_mutations.py), and a worker expires it in batches
-- (services/invitation_expiry.py). The row with its transitions and its table constraints is
-- models/invitation.py. Candidates are ranked by a score of exact fractions
-- (services/matching_scoring.py), which compares interests, activities, availability, languages and
-- majors; free preferences are compared by a normalized key (services/preference_identity.py). An
-- acceptance (services/invitation_acceptance.py) scores the pair once more, turns the invitation into
-- a match (services/buddy_matches.py) with its conversation and queues a mail. The two talk in that
-- conversation (services/buddy_chat.py). Mails are events of an outbox, which workers lease, deliver
-- and finalize (services/email_outbox.py). A browser session is a family of refresh tokens
-- (services/tokens.py, refresh_sessions.py), and an address is verified by a token that can be
-- consumed once (services/email_verification.py).
--
-- The files.
--   Base            numbers, lists, options and tests; the lemmas the components share
--   Errors          reason codes, exceptions and results
--   Time            timestamps with and without a time zone, in microseconds
--   Text            texts as lists of code points: strip, split, maximal runs, btrim
--   Models          the rows: models/invitation.py with its methods and check constraints
--                   (Models.Invitation), and the users, profiles, matches and outbox rows
--   Db              the tables, the session in which a service runs, its writes with the unique
--                   indexes; an exception leaves no write, as the callers roll back
--   Base64          URL-safe base64 and big-endian numbers of the standard library
--   Accounts        Email: canonicalize_email (services/auth.py); Verification:
--                   services/email_verification.py
--   Sessions        Tokens (services/tokens.py) over Jwt (PyJWT), and Families
--                   (services/refresh_sessions.py); Histories is every sequence of their calls
--   Chat            services/buddy_chat.py and models/buddy_chat.py: Conversations, Messages
--                   (persist_buddy_message, send_buddy_message), Cursor, History
--                   (list_buddy_messages), Reads (acknowledge_buddy_messages_read), Unread
--                   (get_buddy_unread_summary), Cleanup (services/chat_cleanup.py and the database
--                   function of alembic/versions/0016_chat_message_cleanup.py)
--   Outbox          services/email_outbox.py: Payload, Event and Enqueue (enqueue_transactional_email),
--                   Claim (claim_transactional_outbox), Finalize and Delay (_finalize_delivery,
--                   _retry_delay); Steps is the life of one event as a step relation, to which
--                   Moves and Claimed relate the table
--   Invitations     Message (canonicalize_invitation_message), Expiry (the effective state, the SQL
--                   predicates and the batch), Mutations (Decline, Cancel, Hide), Sending
--                   (services/invitation_sending.py, with the locked participants, the rejections
--                   and the writes in Participants, Rejections and Effects), Acceptance
--                   (accept_matching_invitation)
--   Profiles        services/profile_completion.py (Completion, Counts), and Access:
--                   services/buddy_access.py and get_eligible_matching_principal
--   Matches         services/buddy_match_policy.py and buddy_matches.py: Participants (the locks) and
--                   Activation (activate_buddy_match); Belonging, Writes, Pairs and Outcome are
--                   about whose match it makes and what it answers
--   Preferences     normalize_preference_identity
--   Matching        Fractions, Identities (sets of signals and their similarity), Intervals and
--                   Availability (merging and intersecting weeks), Eligibility, Scoring,
--                   Projection (_project_safe_profiles, load_matching_pair_scoring_profiles),
--                   Candidates (eligible_candidate_statement, load_matching_scoring_profiles),
--                   Recommendations (services/matching_recommendations.py)
--   Tests           concrete inputs
--
-- Correspondence. A service is a function from the tables to a result with the tables it leaves,
-- with the guards in the order of the code. Row locks make the calls that touch one row run one
-- after another, so that an interleaving is a sequence of calls; the rows that a batch finds locked
-- are an argument. Identifiers are the numbers `UUID.int`; instants are natural numbers of
-- microseconds, so that no time lies before the epoch. A clock is the timestamp that it returns. The
-- time zone database, the Unicode tables and SHA-256 are parameters, without hypotheses. PyJWT and
-- `UUID(text)` are parameters too (Sessions.Jwt), with their documented behaviour as hypotheses where
-- a theorem rests on it. Random bytes and new identifiers are arguments. All loops are structural
-- recursion, without fuel.
--
-- Not modelled: HTTP routes, cookies and schemas, passwords, the realtime transport, events, recaps,
-- semesters and backups, image processing, and the SQL that projects rows for display.
pub mod Base
pub mod Errors
pub mod Time
pub mod Text
pub mod Base64
pub mod Models
pub mod Db
pub mod Accounts
pub mod Outbox
pub mod Invitations
pub mod Matching
pub mod Profiles
pub mod Matches
pub mod Chat
pub mod Sessions
pub mod Preferences
pub mod Tests
