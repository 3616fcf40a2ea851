-- ===== src/Cronjob/Template.antt =====
-- Views of what MakeCronJob builds: the job spec that will run, and its metadata.
use redis_backup_operator.Types.Kubernetes.{
  ObjectMeta, JobSpec, Object, job, cron_job, cron_job_v1beta1,
}

abbrev pub job_spec_of : Object → JobSpec
job_spec_of (job j) = j.spec
job_spec_of (cron_job c) = c.spec.job_template
job_spec_of (cron_job_v1beta1 c) = c.spec.job_template

abbrev pub metadata_of : Object → ObjectMeta
metadata_of (job j) = j.metadata
metadata_of (cron_job c) = c.metadata
metadata_of (cron_job_v1beta1 c) = c.metadata
