-- ===== src/Tests.antt =====
-- Concrete runs of the models, and the theorems at inputs that meet their hypotheses.
mod Distribution
mod Store
mod Server
mod Results
mod Communicator
mod Fetch
mod Worker
mod Safety
mod Keys
mod Message
mod Caller
mod Actor
mod Reader
mod End
mod Broadcast
mod ImageDatabase
mod Files
mod Prefetch
