-- ===== src/Tests.antt =====
-- Tests and witnesses.
mod DictRuns
mod DictWitnesses
mod DictNumbers
mod DictMerges
mod AclRuns
mod AclWitnesses
mod RingRuns
mod IrcRuns
mod TextRuns
mod LogQueueRuns
mod SocksRuns
mod JsonRuns
