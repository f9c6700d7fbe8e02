-- ===== src/Lib.antt =====
-- Avvalo checks suspicious messages for users of a Telegram bot and of a web page. This library
-- models the engine of a check (app/engine), the rows that it writes (app/data), the rules that
-- operators edit (app/rules_store), the cards that they edit (app/knowledge_store), the articles of the
-- site (app/content), the web page with its editors (app/web) and the logging (app/obs).
--
-- A check goes through the stages of app/engine/pipeline.py. The content stage takes the text of the
-- message, or reads an image by a QR decoder and by OCR. The rules engine finds red flags in the text;
-- retrieval selects reviewed knowledge cards for them; a language model, called at most twice with a
-- fallback provider, writes a draft. The wording of the cards is merged into the draft, and the
-- deterministic validator accepts or rejects the outcome. Only an accepted draft is laid out for the
-- user; everything else ends on a fixed message. In front of the stages a slot of the daily limit is
-- reserved, and behind them it is given back where the status is not billable.
--
-- The rules come from a shipped pack of YAML files and from a table of overrides. An operator, behind
-- the gate of app/web/admin_auth.py, writes the table; a refresh, after each edit and at intervals,
-- merges it with the shipped pack and puts the result in force for the checks that follow. The
-- knowledge cards have a shipped base and a table of overrides in the same way. Articles with their
-- covers are rows that the site shows once they are published.
--
-- Prelude, Stdlib and Raises hold what all parts share. Stdlib is the part of Python's standard library
-- that is not defined here: Unicode normalization, the engine of `re`, the parsers of URLs and
-- addresses. Patterns are the sources' texts. Raises is code that may raise, and Raises/Ensures what
-- holds of its results.
--
-- Engine/Types: the contracts of app/engine/types.py.
-- Engine/Url and its children: app/engine/url.py. Tables has the constants, Distance the comparison of
--   `_levenshtein_at_most_one` with its proof, Classify `classify_link`, Catalog
--   `load_official_domains` with the proof about its floor, Punctuation the proof of
--   `split_url_trailing_punctuation`. The punctuation loop has the length of the text as fuel.
-- Engine/Rules and its children: app/engine/rules/loader.py (Pack, Yaml, Loader) and
--   app/engine/rules/engine.py (Tables, Matching, Signals, Passes). What `yaml.safe_load` gives is an
--   argument, for each file a value or an error.
-- Engine/Knowledge and its children: app/engine/knowledge, with types.py (Types), retrieve.py
--   (Ranking, Retrieve), compose.py (Compose) and loader.py (Loader). A set stands as a list without
--   repetition. pydantic's contract of a card is a parameter of the loader.
-- Engine/Validate and its children: app/engine/validate.py.
-- Engine/Meta, Engine/Language, Engine/Format, Engine/Minimize: the files of app/engine of the same
--   names. Engine/Qr: app/engine/qr/base.py, over bytes, with the length of the payload as fuel, of
--   which each field takes four or more.
-- Engine/Pipeline and its children: app/engine/pipeline.py. Types has the answers of the services,
--   Content `_content_from_input`, Llm `_call_llm`, Stages `_run_stages` and Run `run_check`. The loop
--   over the attempts counts down from two. The services are functions, so that a theorem about all of
--   them speaks of every answer, time-out and exception. A session holds what is written and what is
--   committed. The days of the reservation and of the refund are given apart.
-- Data and its children: app/data/models.py (Store), app/data/repo.py (Usage, Events, Deletion) and
--   app/data/retention.py (Retention). A table is the list of its rows, and a time is seconds.
-- Overrides and its children: what the stores of rules, cards and articles share. Table has the rows
--   with their ids and names, Collected the loop that reads them, Merge the overlay by id.
-- RulesStore and its children: app/rules_store, with repo.py (Draft, Repo) and apply.py (Merge,
--   Publish). Publish has the pack in force of app/engine/rules/loader.py too, as a state of its own,
--   and the steps of operators and of the scheduler as a relation on the rows and this pack.
-- KnowledgeStore and its children: app/knowledge_store, with repo.py (Draft, Repo) and apply.py (Merge,
--   Publish), built as RulesStore. The text of a time is a parameter of the version.
-- Content and its children: app/content, with images.py (Images) and repo.py (Repo). What Pillow makes
--   of the bytes of an image is a parameter.
-- Web and its children: app/web/session.py (Session), app/web/admin_auth.py (Admin), the handler of a
--   check in app/web/routes.py (Check), the cap on bodies, the counted peer and the origin of a request
--   of app/web/abuse.py (Abuse, Origin), the two handlers of app/web/rules_admin.py that write (Rules),
--   the guards of the editors (Gate), the handlers of app/web/knowledge_admin.py (Cards) and of
--   app/web/editorial.py (Posts) that write, the login and the logout of the latter (Login), and what
--   the two cookies share (Cookie). HMAC, base64, the parsers of addresses and of URLs, Turnstile's
--   answer and the texts of numbers are parameters. Abuse takes an application as what it does with
--   each message.
-- Obs and its children: app/obs/alerts.py (Alerts) and app/obs/events.py (Events). A run of alerts is
--   the list of the records that reach the handler, with their times.
-- Examples: the theorems at work on concrete inputs.
--
-- Floats stand as whole numbers: confidences, rates and costs in millionths. Not modelled: prompts and
-- HTTP providers, the bot, the pages of the web channel, metrics, the registration of jobs on the
-- scheduler, and the settings but for the fields that are read here.
pub mod Prelude
pub mod Stdlib
pub mod Raises
pub mod Overrides
pub mod Engine
pub mod Data
pub mod RulesStore
pub mod KnowledgeStore
pub mod Content
pub mod Obs
pub mod Web
pub mod Examples
